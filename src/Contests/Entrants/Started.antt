-- ===== src/Contests/Entrants/Started.antt =====
-- Whom the event of a started contest reaches.
use hakawi.Common.{
  ◌≡◌, refl, ap, ◌∙◌, String, Bool, true, false, some, List, [], ◌∷◌, not, arith, find, every,
  filter, eq_iff, eq_refl, find-update, find_sound, filter_none, newest_first, Bool-cases, inl, inr,
  ok,
}
use hakawi.Common.Text.{Text}
use hakawi.Contests.Store.{
  draft, active, same_contest_status, Contest, ContestSubmission, contest_started, World,
}
use hakawi.Contests.Repository.{
  is_contest, in_contest, with_input, entries_page, find_contest_by_id, update_contest,
}
use hakawi.Contests.Service.{announce, invalidate_contest_cache, load_contest, to_status, start}
use hakawi.Contests.Events.{handle_event, submission_ids_for, authors_of, add_authors}
use hakawi.Contests.Voting.Kept.{start-Keeps}
use hakawi.Contests.History.{
  Request, creates, edits, starts, cancels, completes, submits, approves, rejects, votes,
  selects_winner, gives_prize, waits, serve, serve_all,
}
use hakawi.Contests.Entrants.{
  is_begun, IsBegun, create-IsBegun, start-IsBegun, cancel-IsBegun, complete-IsBegun,
  select-IsBegun, submit-IsBegun, approve-IsBegun, reject-IsBegun, cast-IsBegun, prize-IsBegun,
}

abbrev pub is_edit : Request → Bool
is_edit (edits i d u) = true
is_edit _ = false

module _ (like : Text → Text → Bool) where
  serve-IsBegun :
      (q : Request) (w : World) → is_edit q ≡ false → IsBegun w → IsBegun (serve like q w)
  unfolding serve
  serve-IsBegun (creates u d) w e h = create-IsBegun w h like u d
  serve-IsBegun (edits j d u) w e h = absurd (ground arith)
  serve-IsBegun (starts j u) w e h = start-IsBegun w h j u
  serve-IsBegun (cancels j u) w e h = cancel-IsBegun w h j u
  serve-IsBegun (completes j u) w e h = complete-IsBegun w h j u
  serve-IsBegun (submits k a s u) w e h = submit-IsBegun w h k a s u
  serve-IsBegun (approves s k u) w e h = approve-IsBegun w h s k u
  serve-IsBegun (rejects s k u) w e h = reject-IsBegun w h s k u
  serve-IsBegun (votes k s u) w e h = cast-IsBegun w h k s u
  serve-IsBegun (selects_winner j s a u) w e h = select-IsBegun w h j s a u
  serve-IsBegun (gives_prize k s a t text u n m) w e h = prize-IsBegun w h k s a t text u n m
  serve-IsBegun (waits n) w e h = h

  serve_all-IsBegun :
      (qs : List Request) (w : World)
      → every (λ q. not (is_edit q)) qs ≡ true
      → IsBegun w
      → IsBegun (serve_all like qs w)
  unfolding serve_all
  serve_all-IsBegun [] w e h = h
  serve_all-IsBegun (q ∷ qs) w e h =
      serve_all-IsBegun qs (serve like q w) (ground arith) (serve-IsBegun q w (ground arith) h)

is_strange :
    (i : String) (c : Contest) (cs : List Contest)
    → find (is_contest i) cs ≡ some c
    → same_contest_status c.status draft ≡ true
    → (s : ContestSubmission) → is_begun cs s ≡ true
    → in_contest i s ≡ false
is_strange i c cs f d s h = elim (Bool-cases (in_contest i s)) [
  | inl own ↦
      let same : s.contest_id ≡ i = (eq_iff s.contest_id i).0 own in
      absurd (ground (arith, f, d, h, ap (λ k. find (is_contest k) cs) same))
  | inr other ↦ other
]

no_entries :
    (i : String) (c : Contest) (w : World)
    → IsBegun w
    → find (is_contest i) w.contests ≡ some c
    → same_contest_status c.status draft ≡ true
    → filter (in_contest i) w.submissions ≡ []
no_entries i c w h f d =
    filter_none (in_contest i) (is_begun w.contests) w.submissions (is_strange i c w.contests f d) h

nobody :
    (i : String) (w : World)
    → filter (in_contest i) w.submissions ≡ []
    → handle_event (contest_started i) w ≡ []
unfolding handle_event submission_ids_for authors_of add_authors entries_page newest_first
nobody i w e = ground (arith, e)

start_accepted :
    (i : String) (c : Contest) (w : World)
    → find (is_contest i) w.contests ≡ some c
    → same_contest_status c.status draft ≡ true
    → (start i c.created_by w).0 ≡ ok (some (record c { status = active; updated_at = w.now }))
unfolding start load_contest find_contest_by_id update_contest invalidate_contest_cache announce
start_accepted i c w f d = ground (
  arith,
  f,
  d,
  eq_refl c.created_by,
  find_sound (is_contest i) w.contests f,
  find-update (is_contest i) (is_contest i) (with_input (to_status active) w.now) w.contests
      (λ x. refl),
)

-- When there were no entries at first, and no request so far has edited a contest, the creator of a
-- draft starts it, and the event that announces the start to the entrants notifies nobody.
pub started_tells_nobody :
    (like : Text → Text → Bool) (qs : List Request) (i : String) (c : Contest) (w : World)
    → w.submissions ≡ []
    → every (λ q. not (is_edit q)) qs ≡ true
    → find (is_contest i) (serve_all like qs w).contests ≡ some c
    → same_contest_status c.status draft ≡ true
    → ((start i c.created_by (serve_all like qs w)).0
        ≡ ok (some (record c { status = active; updated_at = (serve_all like qs w).now })))
      × (handle_event (contest_started i) (start i c.created_by (serve_all like qs w)).1 ≡ [])
started_tells_nobody like qs i c w e plain f d =
    let after = serve_all like qs w in
    let begun : IsBegun after = serve_all-IsBegun like qs w plain (ground (arith, e)) in
    let kept = start-Keeps i c.created_by after in
    (
      start_accepted i c after f d,
      nobody i (start i c.created_by after).1
          (ap (filter (in_contest i)) kept.0 ∙ no_entries i c after begun f d),
    )
