-- ===== src/Contests/Voting/Kept.antt =====
-- The requests that leave the table of the entries, that of the votes, or both as they are.
use hakawi.Common.{ℕ, ◌≡◌, String, Bool, Option, arith}
use hakawi.Common.Text.{Text}
use hakawi.Contests.Store.{CreateContestInput, UpdateContestInput, World}
use hakawi.Contests.Repository.{
  find_contest_by_id, find_all_contests, create_contest, update_contest, find_submission_by_id,
  find_submission_by_contest_and_author, create_submission, review_submission,
  find_vote_by_user_contest_submission, insert_vote, create_prize, find_winning_submission,
}
use hakawi.Contests.Service.{
  announce, invalidate_contest_cache, load_contest, create, edit, start, cancel, complete,
}
use hakawi.Contests.Entries.{
  submit_story, reviewable, approve_submission, reject_submission, cast_vote, select_winner,
  distribute_prize,
}

-- The tables of the entries and of the votes are the same.
abbrev pub Keeps : World → World → Type 0
Keeps w after = (after.submissions ≡ w.submissions) × (after.votes ≡ w.votes)

pub create-Keeps :
    (like : Text → Text → Bool) (u : String) (d : CreateContestInput) (w : World)
    → Keeps w (create like u d w).1
unfolding create find_all_contests create_contest announce
create-Keeps like u d w = ground arith

pub edit-Keeps :
    (j : String) (d : UpdateContestInput) (u : String) (w : World) → Keeps w (edit j d u w).1
unfolding edit load_contest find_contest_by_id update_contest invalidate_contest_cache announce
edit-Keeps j d u w = ground arith

pub start-Keeps : (j u : String) (w : World) → Keeps w (start j u w).1
unfolding start load_contest find_contest_by_id update_contest invalidate_contest_cache announce
start-Keeps j u w = ground arith

pub cancel-Keeps : (j u : String) (w : World) → Keeps w (cancel j u w).1
unfolding cancel load_contest find_contest_by_id update_contest invalidate_contest_cache announce
cancel-Keeps j u w = ground arith

pub complete-Keeps : (j u : String) (w : World) → Keeps w (complete j u w).1
unfolding complete load_contest find_contest_by_id update_contest invalidate_contest_cache announce
    find_winning_submission
complete-Keeps j u w = ground arith

pub select-Keeps : (j s a u : String) (w : World) → Keeps w (select_winner j s a u w).1
unfolding select_winner load_contest find_contest_by_id update_contest invalidate_contest_cache
    announce find_submission_by_id
select-Keeps j s a u w = ground arith

pub prize-Keeps :
    (k s a t : String) (text : Option String) (u : String) (n : Option ℕ) (m : Option String)
    (w : World)
    → Keeps w (distribute_prize k s a t text u n m w).1
unfolding distribute_prize load_contest find_contest_by_id create_prize announce
prize-Keeps k s a t text u n m w = ground arith

pub submit-votes : (c a s u : String) (w : World) → (submit_story c a s u w).1.votes ≡ w.votes
unfolding submit_story load_contest find_contest_by_id find_submission_by_contest_and_author
    create_submission announce
submit-votes c a s u w = ground arith

pub approve-votes : (s c u : String) (w : World) → (approve_submission s c u w).1.votes ≡ w.votes
unfolding approve_submission reviewable find_submission_by_id load_contest find_contest_by_id
    review_submission announce
approve-votes s c u w = ground arith

pub reject-votes : (s c u : String) (w : World) → (reject_submission s c u w).1.votes ≡ w.votes
unfolding reject_submission reviewable find_submission_by_id load_contest find_contest_by_id
    review_submission announce
reject-votes s c u w = ground arith

pub cast-submissions :
    (c s u : String) (w : World) → (cast_vote c s u w).1.submissions ≡ w.submissions
unfolding cast_vote load_contest find_contest_by_id find_submission_by_id
    find_vote_by_user_contest_submission insert_vote announce
cast-submissions c s u w = ground arith
