-- ===== src/Contests/History.antt =====
-- The requests that the contests answer one after another, with time passing in between.
use hakawi.Common.{ℕ, ◌+◌, String, Bool, Option, List, [], ◌∷◌}
use hakawi.Common.Text.{Text}
use hakawi.Contests.Store.{CreateContestInput, UpdateContestInput, World}
use hakawi.Contests.Service.{create, edit, start, cancel, complete}
use hakawi.Contests.Entries.{
  submit_story, approve_submission, reject_submission, cast_vote, select_winner, distribute_prize,
}

pub data Request : Type 0 where
  creates : String → CreateContestInput → Request
  edits : String → UpdateContestInput → String → Request
  starts cancels completes : String → String → Request
  submits : String → String → String → String → Request
  approves rejects : String → String → String → Request
  votes : String → String → String → Request
  selects_winner : String → String → String → String → Request
  gives_prize :
      String
      → String
      → String
      → String
      → Option String
      → String
      → Option ℕ
      → Option String
      → Request
  waits : ℕ → Request

module _ (like : Text → Text → Bool) where
  unfoldable pub serve : Request → World → World
  unfolding create edit start cancel complete submit_story approve_submission reject_submission
      cast_vote select_winner distribute_prize
  serve (creates u input) w = (create like u input w).1
  serve (edits i input u) w = (edit i input u w).1
  serve (starts i u) w = (start i u w).1
  serve (cancels i u) w = (cancel i u w).1
  serve (completes i u) w = (complete i u w).1
  serve (submits c a s u) w = (submit_story c a s u w).1
  serve (approves s c u) w = (approve_submission s c u w).1
  serve (rejects s c u) w = (reject_submission s c u w).1
  serve (votes c s u) w = (cast_vote c s u w).1
  serve (selects_winner c s a u) w = (select_winner c s a u w).1
  serve (gives_prize c s a kind text u amount currency) w =
      (distribute_prize c s a kind text u amount currency w).1
  serve (waits n) w = record w { now = w.now + n }

  unfoldable pub serve_all : List Request → World → World
  unfolding serve
  serve_all [] w = w
  serve_all (q ∷ qs) w = serve_all qs (serve q w)
