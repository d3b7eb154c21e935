-- ===== src/Contests/Voting/Sound.antt =====
-- Fair and single votes after any sequence of requests.
use hakawi.Common.{◌≤◌, ◌≡◌, String, Bool, true, List, [], ◌∷◌, arith, every, count}
use hakawi.Common.Text.{Text}
use hakawi.Contests.Store.{World}
use hakawi.Contests.Repository.{is_entry, is_ballot}
use hakawi.Contests.Service.{create, edit, start, cancel, complete}
use hakawi.Contests.Entries.{select_winner, distribute_prize}
use hakawi.Contests.History.{
  Request, creates, edits, starts, cancels, completes, submits, approves, rejects, votes,
  selects_winner, gives_prize, waits, serve, serve_all,
}
use hakawi.Contests.Voting.{
  is_fair, submit-fair, approve-fair, reject-fair, cast-fair, cast-one, submit-one, approve-one,
  reject-one,
}
use hakawi.Contests.Voting.Kept.{
  Keeps, create-Keeps, edit-Keeps, start-Keeps, cancel-Keeps, complete-Keeps, select-Keeps,
  prize-Keeps, submit-votes, approve-votes, reject-votes, cast-submissions,
}

module _ (like : Text → Text → Bool) (c s u a : String) where
  abbrev IsSound : World → Type 0
  IsSound w =
      (every (is_fair w.submissions) w.votes ≡ true)
      × (count (is_ballot c s u) w.votes ≤ 1)
      × (count (is_entry c a) w.submissions ≤ 1)

  Keeps-IsSound : (w after : World) → Keeps w after → IsSound w → IsSound after
  Keeps-IsSound w after (es, vs) h = ground (arith, h, es, vs)

  serve-IsSound : (q : Request) (w : World) → IsSound w → IsSound (serve like q w)
  unfolding serve
  serve-IsSound (creates v d) w h =
      Keeps-IsSound w (create like v d w).1 (create-Keeps like v d w) h
  serve-IsSound (edits j d v) w h = Keeps-IsSound w (edit j d v w).1 (edit-Keeps j d v w) h
  serve-IsSound (starts j v) w h = Keeps-IsSound w (start j v w).1 (start-Keeps j v w) h
  serve-IsSound (cancels j v) w h = Keeps-IsSound w (cancel j v w).1 (cancel-Keeps j v w) h
  serve-IsSound (completes j v) w h = Keeps-IsSound w (complete j v w).1 (complete-Keeps j v w) h
  serve-IsSound (selects_winner j t b v) w h =
      Keeps-IsSound w (select_winner j t b v w).1 (select-Keeps j t b v w) h
  serve-IsSound (gives_prize k t b x text v n m) w h =
      Keeps-IsSound w (distribute_prize k t b x text v n m w).1 (prize-Keeps k t b x text v n m w) h
  serve-IsSound (submits k b t v) w (fair, one, entry) = ground (
    arith,
    submit-fair w fair k b t v,
    submit-votes k b t v w,
    one,
    submit-one k b t v c a w entry,
  )
  serve-IsSound (approves t k v) w (fair, one, entry) =
      ground (
        arith,
        approve-fair w fair t k v,
        approve-votes t k v w,
        one,
        approve-one t k v c a w entry,
      )
  serve-IsSound (rejects t k v) w (fair, one, entry) =
      ground
        (arith, reject-fair w fair t k v, reject-votes t k v w, one, reject-one t k v c a w entry)
  serve-IsSound (votes k t v) w (fair, one, entry) =
      ground
        (arith, cast-fair w fair k t v, cast-one k t v c s u w one, cast-submissions k t v w, entry)
  serve-IsSound (waits n) w h = h

  serve_all-IsSound : (qs : List Request) (w : World) → IsSound w → IsSound (serve_all like qs w)
  unfolding serve_all
  serve_all-IsSound [] w h = h
  serve_all-IsSound (q ∷ qs) w h = serve_all-IsSound qs (serve like q w) (serve-IsSound q w h)

  -- When there were no entries and no votes at first, then after any sequence of requests each vote is
  -- for an entry of the contest that it names and not by that entry's author, an account has at most
  -- one vote for an entry of a contest, and an author has at most one entry in a contest.
  pub votes_sound :
      (qs : List Request) (w : World)
      → w.submissions ≡ []
      → w.votes ≡ []
      → (every (is_fair (serve_all like qs w).submissions) (serve_all like qs w).votes ≡ true)
        × (count (is_ballot c s u) (serve_all like qs w).votes ≤ 1)
        × (count (is_entry c a) (serve_all like qs w).submissions ≤ 1)
  votes_sound qs w es vs = serve_all-IsSound qs w (ground (arith, es, vs))
