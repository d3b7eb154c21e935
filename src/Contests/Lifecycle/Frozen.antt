-- ===== src/Contests/Lifecycle/Frozen.antt =====
-- The row of a contest after any sequence of requests.
use hakawi.Common.{
  ◌≡◌, String, Bool, true, false, some, List, [], ◌∷◌, not, ◌==◌, arith, find, every,
}
use hakawi.Common.Text.{Text}
use hakawi.Contests.Store.{Contest, World}
use hakawi.Contests.Repository.{is_contest}
use hakawi.Contests.Service.{is_terminal}
use hakawi.Contests.History.{
  Request, creates, edits, starts, cancels, completes, submits, approves, rejects, votes,
  selects_winner, gives_prize, waits, serve, serve_all,
}
use hakawi.Contests.Lifecycle.{
  create-find, submit-find, approve-find, reject-find, cast-find, prize-find, edit-closed,
  start-closed, cancel-closed, complete-closed, select-closed, edit-foreign, start-foreign,
  cancel-foreign, complete-foreign, select-foreign,
}

-- The request updates a contest in the name of this account.
abbrev pub is_update_by : String → Request → Bool
is_update_by u (edits i d v) = u == v
is_update_by u (starts i v) = u == v
is_update_by u (cancels i v) = u == v
is_update_by u (completes i v) = u == v
is_update_by u (selects_winner c s a v) = u == v
is_update_by u _ = false

module _ (like : Text → Text → Bool) (i : String) (c : Contest) where
  serve-closed :
      (q : Request) (w : World)
      → find (is_contest i) w.contests ≡ some c
      → is_terminal c.status ≡ true
      → find (is_contest i) (serve like q w).contests ≡ some c
  unfolding serve
  serve-closed (creates u d) w f h = create-find i c w f like u d
  serve-closed (edits j d u) w f h = edit-closed i c w f h j d u
  serve-closed (starts j u) w f h = start-closed i c w f h j u
  serve-closed (cancels j u) w f h = cancel-closed i c w f h j u
  serve-closed (completes j u) w f h = complete-closed i c w f h j u
  serve-closed (submits k a s u) w f h = submit-find i c w f k a s u
  serve-closed (approves s k u) w f h = approve-find i c w f s k u
  serve-closed (rejects s k u) w f h = reject-find i c w f s k u
  serve-closed (votes k s u) w f h = cast-find i c w f k s u
  serve-closed (selects_winner j s a u) w f h = select-closed i c w f h j s a u
  serve-closed (gives_prize k s a t text u n m) w f h = prize-find i c w f k s a t text u n m
  serve-closed (waits n) w f h = f

  serve-foreign :
      (q : Request) (w : World)
      → find (is_contest i) w.contests ≡ some c
      → is_update_by c.created_by q ≡ false
      → find (is_contest i) (serve like q w).contests ≡ some c
  unfolding serve
  serve-foreign (creates u d) w f h = create-find i c w f like u d
  serve-foreign (edits j d u) w f h = edit-foreign i u c w f h j d
  serve-foreign (starts j u) w f h = start-foreign i u c w f h j
  serve-foreign (cancels j u) w f h = cancel-foreign i u c w f h j
  serve-foreign (completes j u) w f h = complete-foreign i u c w f h j
  serve-foreign (submits k a s u) w f h = submit-find i c w f k a s u
  serve-foreign (approves s k u) w f h = approve-find i c w f s k u
  serve-foreign (rejects s k u) w f h = reject-find i c w f s k u
  serve-foreign (votes k s u) w f h = cast-find i c w f k s u
  serve-foreign (selects_winner j s a u) w f h = select-foreign i u c w f h j s a
  serve-foreign (gives_prize k s a t text u n m) w f h = prize-find i c w f k s a t text u n m
  serve-foreign (waits n) w f h = f

  -- Whatever requests come, a completed or cancelled contest keeps its row: its status, its winner,
  -- its dates and its title.
  pub closed_contest_kept :
      (qs : List Request) (w : World)
      → find (is_contest i) w.contests ≡ some c
      → is_terminal c.status ≡ true
      → find (is_contest i) (serve_all like qs w).contests ≡ some c
  unfolding serve_all
  closed_contest_kept [] w f h = f
  closed_contest_kept (q ∷ qs) w f h =
      closed_contest_kept qs (serve like q w) (serve-closed q w f h) h

  -- Whatever requests come, the row of a contest is as it was if none of them edits, starts, cancels,
  -- completes or decides a contest in the name of the account that created it.
  pub only_creator_updates :
      (qs : List Request) (w : World)
      → find (is_contest i) w.contests ≡ some c
      → every (λ q. not (is_update_by c.created_by q)) qs ≡ true
      → find (is_contest i) (serve_all like qs w).contests ≡ some c
  unfolding serve_all
  only_creator_updates [] w f h = f
  only_creator_updates (q ∷ qs) w f h =
      only_creator_updates qs (serve like q w) (serve-foreign q w f (ground arith)) (ground arith)
