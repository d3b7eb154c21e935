-- ===== src/Contests/Lifecycle.antt =====
-- Which requests leave the row of a contest as it is: all of them once it is completed or cancelled,
-- and those that the creator does not make.
pub mod Frozen
use hakawi.Common.{
  ℕ, ◌≡◌, refl, sym, ap, ◌∙◌, String, Bool, true, false, Option, none, some, List, [], ◌∷◌, ◌++◌,
  ◌&&◌, filter, every, ◌||◌, not, ◌==◌, arith, ltb, find, update, any, eq_iff, find-update,
  find_sound, find-append, Option-cases, Bool-cases, inl, inr,
}
use hakawi.Common.Text.{Text}
use hakawi.Contests.Store.{
  ContestStatus, draft, active, voting, completed, cancelled, same_contest_status, Contest,
  CreateContestInput, UpdateContestInput, World,
}
use hakawi.Contests.Repository.{
  is_contest, in_contest, contest_row, most_voted, with_input, find_contest_by_id,
  find_all_contests, create_contest, update_contest, find_submission_by_id,
  find_submission_by_contest_and_author, create_submission, review_submission,
  find_vote_by_user_contest_submission, insert_vote, create_prize, find_winning_submission,
}
use hakawi.Contests.Service.{
  announce, invalidate_contest_cache, load_contest, is_terminal, no_input, to_status, completion,
  create, edit, start, cancel, complete,
}
use hakawi.Contests.Entries.{
  submit_story, reviewable, approve_submission, reject_submission, entered, cast_vote,
  select_winner, distribute_prize,
}
use hakawi.Contests.History.{
  Request, creates, edits, starts, cancels, completes, submits, approves, rejects, votes,
  selects_winner, gives_prize, waits, serve, serve_all,
}

abbrev passes : (Contest → Bool) → Option Contest → Bool
passes q none = true
passes q (some c) = q c

-- An update of a contest that passes a test leaves each contest alone that does not pass it.
update-spared :
    (q : Contest → Bool) (i j : String) (d : UpdateContestInput) (t : ℕ) (cs : List Contest)
    (c : Contest)
    → find (is_contest i) cs ≡ some c
    → q c ≡ false
    → passes q (find (is_contest j) cs) ≡ true
    → find (is_contest i) (update (is_contest j) (with_input d t) cs) ≡ some c
update-spared q i j d t cs c f spared open_ = elim (Bool-cases (c.id == j)) [
  | inl hit ↦
      let same : i ≡ j =
        sym ((eq_iff c.id i).0 (find_sound (is_contest i) cs f)) ∙ (eq_iff c.id j).0 hit in
      absurd (ground (arith, f, spared, open_, ap (λ k. find (is_contest k) cs) same))
  | inr miss ↦
      ground
        (arith, f, miss, find-update (is_contest i) (is_contest j) (with_input d t) cs (λ x. refl))
]

-- What no request changes, whoever makes it.
module _ (i : String) (c : Contest) (w : World) (f : find (is_contest i) w.contests ≡ some c) where
  pub create-find :
      (like : Text → Text → Bool) (u : String) (input : CreateContestInput)
      → find (is_contest i) (create like u input w).1.contests ≡ some c
  unfolding create find_all_contests create_contest announce
  create-find like u input =
      ground (arith, f, find-append (is_contest i) w.contests (contest_row input u draft w) f)

  pub submit-find :
      (k a s u : String) → find (is_contest i) (submit_story k a s u w).1.contests ≡ some c
  unfolding submit_story load_contest find_contest_by_id find_submission_by_contest_and_author
      create_submission announce
  submit-find k a s u = ground (arith, f)

  pub approve-find :
      (s k u : String) → find (is_contest i) (approve_submission s k u w).1.contests ≡ some c
  unfolding approve_submission reviewable find_submission_by_id load_contest find_contest_by_id
      review_submission announce
  approve-find s k u = ground (arith, f)

  pub reject-find :
      (s k u : String) → find (is_contest i) (reject_submission s k u w).1.contests ≡ some c
  unfolding reject_submission reviewable find_submission_by_id load_contest find_contest_by_id
      review_submission announce
  reject-find s k u = ground (arith, f)

  pub cast-find : (k s u : String) → find (is_contest i) (cast_vote k s u w).1.contests ≡ some c
  unfolding cast_vote load_contest find_contest_by_id find_submission_by_id
      find_vote_by_user_contest_submission insert_vote announce
  cast-find k s u = ground (arith, f)

  pub prize-find :
      (k s a t : String) (text : Option String) (u : String) (n : Option ℕ) (m : Option String)
      → find (is_contest i) (distribute_prize k s a t text u n m w).1.contests ≡ some c
  unfolding distribute_prize load_contest find_contest_by_id create_prize announce
  prize-find k s a t text u n m = ground (arith, f)

module _ (i : String) (c : Contest) (w : World) (f : find (is_contest i) w.contests ≡ some c)
    (h : is_terminal c.status ≡ true) where
  pub edit-closed :
      (j : String) (d : UpdateContestInput) (u : String)
      → find (is_contest i) (edit j d u w).1.contests ≡ some c
  unfolding edit load_contest find_contest_by_id update_contest invalidate_contest_cache announce
  edit-closed j d u = ground (
    arith,
    f,
    update-spared (λ x. not (is_terminal x.status)) i j d w.now w.contests c f (ground arith),
  )

  pub start-closed : (j u : String) → find (is_contest i) (start j u w).1.contests ≡ some c
  unfolding start load_contest find_contest_by_id update_contest invalidate_contest_cache announce
  start-closed j u = ground (
    arith,
    f,
    update-spared (λ x. not (is_terminal x.status)) i j (to_status active) w.now w.contests c f
        (ground arith),
  )

  pub cancel-closed : (j u : String) → find (is_contest i) (cancel j u w).1.contests ≡ some c
  unfolding cancel load_contest find_contest_by_id update_contest invalidate_contest_cache announce
  cancel-closed j u = ground (
    arith,
    f,
    update-spared (λ x. not (is_terminal x.status)) i j (to_status cancelled) w.now w.contests c f
        (ground arith),
  )

  pub complete-closed : (j u : String) → find (is_contest i) (complete j u w).1.contests ≡ some c
  unfolding complete load_contest find_winning_submission find_contest_by_id update_contest
      invalidate_contest_cache announce
  complete-closed j u = ground (
    arith,
    f,
    update-spared (λ x. not (is_terminal x.status)) i j
        (completion (most_voted w.votes (filter (in_contest j) w.submissions))) w.now w.contests c f
        (ground arith),
  )

  pub select-closed :
      (j s a u : String) → find (is_contest i) (select_winner j s a u w).1.contests ≡ some c
  unfolding select_winner load_contest find_submission_by_id find_contest_by_id update_contest
      invalidate_contest_cache announce
  select-closed j s a u = ground (
    arith,
    f,
    update-spared (λ x. not (is_terminal x.status)) i j
        (record no_input { winner_id = some (some a); status = some completed }) w.now w.contests c
        f (ground arith),
  )

module _ (i u : String) (c : Contest) (w : World) (f : find (is_contest i) w.contests ≡ some c)
    (h : (c.created_by == u) ≡ false) where
  pub edit-foreign :
      (j : String) (d : UpdateContestInput) → find (is_contest i) (edit j d u w).1.contests ≡ some c
  unfolding edit load_contest find_contest_by_id update_contest invalidate_contest_cache announce
  edit-foreign j d =
      ground
        (arith, f, update-spared (λ x. x.created_by == u) i j d w.now w.contests c f (ground arith))

  pub start-foreign : (j : String) → find (is_contest i) (start j u w).1.contests ≡ some c
  unfolding start load_contest find_contest_by_id update_contest invalidate_contest_cache announce
  start-foreign j = ground (
    arith,
    f,
    update-spared (λ x. x.created_by == u) i j (to_status active) w.now w.contests c f
        (ground arith),
  )

  pub cancel-foreign : (j : String) → find (is_contest i) (cancel j u w).1.contests ≡ some c
  unfolding cancel load_contest find_contest_by_id update_contest invalidate_contest_cache announce
  cancel-foreign j = ground (
    arith,
    f,
    update-spared (λ x. x.created_by == u) i j (to_status cancelled) w.now w.contests c f
        (ground arith),
  )

  pub complete-foreign : (j : String) → find (is_contest i) (complete j u w).1.contests ≡ some c
  unfolding complete load_contest find_winning_submission find_contest_by_id update_contest
      invalidate_contest_cache announce
  complete-foreign j = ground (
    arith,
    f,
    update-spared (λ x. x.created_by == u) i j
        (completion (most_voted w.votes (filter (in_contest j) w.submissions))) w.now w.contests c f
        (ground arith),
  )

  pub select-foreign :
      (j s a : String) → find (is_contest i) (select_winner j s a u w).1.contests ≡ some c
  unfolding select_winner load_contest find_submission_by_id find_contest_by_id update_contest
      invalidate_contest_cache announce
  select-foreign j s a = ground (
    arith,
    f,
    update-spared (λ x. x.created_by == u) i j
        (record no_input { winner_id = some (some a); status = some completed }) w.now w.contests c
        f (ground arith),
  )
