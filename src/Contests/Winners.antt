-- ===== src/Contests/Winners.antt =====
-- The winner that `findWinningSubmission` and `complete` name.
use hakawi.Common.{
  ◌≤◌, ◌≡◌, refl, ap, ◌∙◌, String, Bool, true, false, Option, none, some, List, [], ◌∷◌, ◌==◌,
  arith, ltb, find, any, every, filter, find-update, find_sound, All, Bool-cases, inl, inr, ok,
}
use hakawi.Contests.Store.{
  completed, rejected, pending, approved, SubmissionStatus, same_submission_status, Contest,
  ContestSubmission, ContestVote, World,
}
use hakawi.Contests.Repository.{
  is_contest, in_contest, with_input, votes_for, more_voted, most_voted, find_contest_by_id,
  update_contest, find_winning_submission,
}
use hakawi.Contests.Service.{
  announce, invalidate_contest_cache, load_contest, is_terminal, completion, complete,
}

-- The submission is one of the list.
pub data IsIn (s : ContestSubmission) : List ContestSubmission → Type 0 where
  here : {ss : List ContestSubmission} → IsIn s (s ∷ ss)
  there : {t : ContestSubmission} {ss : List ContestSubmission} → IsIn s ss → IsIn s (t ∷ ss)

-- It has at least as many votes as any of the list.
abbrev pub IsMostVoted : List ContestVote → List ContestSubmission → ContestSubmission → Type 0
IsMostVoted vs ss s = All (λ t. votes_for t.id vs ≤ votes_for s.id vs) ss

most-weaken :
    (vs : List ContestVote) (ss : List ContestSubmission) (s t : ContestSubmission)
    → votes_for s.id vs ≤ votes_for t.id vs
    → IsMostVoted vs ss s
    → IsMostVoted vs ss t
most-weaken vs [] s t h k = tt
most-weaken vs (x ∷ ss) s t h (k, ks) = (omega arith, most-weaken vs ss s t h ks)

pub record IsBest (vs : List ContestVote) (ss : List ContestSubmission) (s : ContestSubmission)
    : Type 0 where
  pub entered : IsIn s ss
  pub most : IsMostVoted vs ss s

-- It is the best of the list, where there is one.
abbrev pub IsBestOf : List ContestVote → List ContestSubmission → Option ContestSubmission → Type 0
IsBestOf vs ss none = ss ≡ []
IsBestOf vs ss (some s) = IsBest vs ss s

more_voted-IsBest :
    (vs : List ContestVote) (s : ContestSubmission) (ss : List ContestSubmission)
    (o : Option ContestSubmission)
    → IsBestOf vs ss o
    → IsBest vs (s ∷ ss) (more_voted vs s o)
more_voted-IsBest vs s ss none e = rw e (record { entered = here; most = (omega arith, tt) })
more_voted-IsBest vs s ss (some t) best =
    elim (Bool-cases (ltb (votes_for s.id vs) (votes_for t.id vs))) [
      | inl less ↦
          rw less
            (record { entered = there best.entered; most = (ground (arith, less), best.most) })
      | inr more ↦ rw more (record {
        entered = here;
        most = (omega arith, most-weaken vs ss t s (ground (arith, more)) best.most);
      })
    ]

most_voted-IsBestOf :
    (vs : List ContestVote) (ss : List ContestSubmission) → IsBestOf vs ss (most_voted vs ss)
unfolding most_voted
most_voted-IsBestOf vs [] = refl
most_voted-IsBestOf vs (s ∷ ss) =
    more_voted-IsBest vs s ss (most_voted vs ss) (most_voted-IsBestOf vs ss)

-- The creator of a contest that is neither completed nor cancelled completes it: the answer is its
-- row, completed, with the author of an entry that has at least as many votes as any other entry of
-- the contest as the winner, and with the winner that it had before if there are no entries.
pub complete-IsBestOf :
    (i u : String) (c : Contest) (w : World)
    → find (is_contest i) w.contests ≡ some c
    → (c.created_by == u) ≡ true
    → is_terminal c.status ≡ false
    → (s : Option ContestSubmission) × IsBestOf w.votes (filter (in_contest i) w.submissions) s
      × ((complete i u w).0 ≡ ok (some (with_input (completion s) w.now c)))
unfolding complete load_contest find_contest_by_id find_winning_submission update_contest
    invalidate_contest_cache announce
complete-IsBestOf i u c w f own still =
    let entries = filter (in_contest i) w.submissions in
    let best = most_voted w.votes entries in
    (
      best,
      most_voted-IsBestOf w.votes entries,
      ground (
        arith,
        f,
        own,
        still,
        find_sound (is_contest i) w.contests f,
        find-update (is_contest i) (is_contest i) (with_input (completion best) w.now) w.contests
            (λ x. refl),
      ),
    )

abbrev pub is_rejected : ContestSubmission → Bool
is_rejected s = same_submission_status s.status rejected

every-IsIn :
    (p : ContestSubmission → Bool) (s : ContestSubmission) (ss : List ContestSubmission)
    → IsIn s ss
    → every p ss ≡ true
    → p s ≡ true
every-IsIn p s _ (here {ss}) h = ground arith
every-IsIn p s _ (there {t} {ss} m) h = every-IsIn p s ss m (ground arith)

rejected_status : (s : SubmissionStatus) → same_submission_status s rejected ≡ true → s ≡ rejected
rejected_status pending h = absurd (ground arith)
rejected_status approved h = absurd (ground arith)
rejected_status rejected h = refl

crowned :
    (vs : List ContestVote) (ss : List ContestSubmission) (o : Option ContestSubmission)
    → IsBestOf vs ss o
    → any is_rejected ss ≡ true
    → (s : ContestSubmission) × (o ≡ some s) × IsIn s ss
crowned vs ss none e h = absurd (ground (arith, e, h))
crowned vs ss (some s) best h = (s, refl, best.entered)

-- The creator of a contest that is neither completed nor cancelled completes it: if there are entries
-- and the creator has rejected all of them, the completed row still names the author of one of
-- the contest's rejected entries as the winner.
pub complete_crowns_rejected :
    (i u : String) (c : Contest) (w : World)
    → find (is_contest i) w.contests ≡ some c
    → (c.created_by == u) ≡ true
    → is_terminal c.status ≡ false
    → any is_rejected (filter (in_contest i) w.submissions) ≡ true
    → every is_rejected (filter (in_contest i) w.submissions) ≡ true
    → (s : ContestSubmission) × IsIn s (filter (in_contest i) w.submissions)
      × (s.status ≡ rejected)
      × ((complete i u w).0
          ≡ ok (
              some (record c {
                status = completed;
                winner_id = some s.author_id;
                updated_at = w.now;
              })))
complete_crowns_rejected i u c w f own still one all =
    let entries = filter (in_contest i) w.submissions in
    let (o, best, done) = complete-IsBestOf i u c w f own still in
    let (s, named, entered) = crowned w.votes entries o best one in
    (
      s,
      entered,
      rejected_status s.status (every-IsIn is_rejected s entries entered all),
      done ∙ ap (λ x. ok (some (with_input (completion x) w.now c))) named,
    )
