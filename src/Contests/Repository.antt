-- ===== src/Contests/Repository.antt =====
-- backend/src/modules/contests/repositories/contests.repository.ts. A query that the database answers
-- with no row gives `none`, also for an id that is no UUID (the error 22P02).
use hakawi.Common.{
  ℕ, ◌+◌, String, Bool, true, Option, none, some, List, [], ◌∷◌, ◌++◌, ◌&&◌, ◌||◌, ◌==◌, ltb,
  if◌then◌else◌, find, update, any, length, filter, take, drop, count, page_of, newest_first,
  or_else, Exec, ok, err, uncaught, gets,
}
use hakawi.Common.Text.{Text}
use hakawi.Contests.Store.{
  ContestStatus, same_contest_status, SubmissionStatus, pending, Contest, ContestSubmission,
  ContestVote, ContestPrize, ContestCategorySummary, CreateContestInput, UpdateContestInput, World,
}

abbrev pub is_contest : String → Contest → Bool
is_contest i c = c.id == i

abbrev pub is_submission : String → ContestSubmission → Bool
is_submission i s = s.id == i

abbrev pub is_vote : String → ContestVote → Bool
is_vote i v = v.id == i

abbrev pub in_contest : String → ContestSubmission → Bool
in_contest i s = s.contest_id == i

abbrev pub fresh_id : World → String
fresh_id w = w.ids w.drawn

unfoldable pub find_contest_by_id : String → Exec World (Option Contest)
find_contest_by_id i = gets (λ w. find (is_contest i) w.contests)

pub record FindAllParams : Type 0 where
  pub page : Option ℕ
  pub limit : Option ℕ
  pub category_id : Option String
  pub status : Option ContestStatus
  pub search : Option Text

-- No condition of an absent or empty text; `like` is the database's, of a title and a search text.
abbrev pub matches_category : Option String → Option String → Bool
matches_category none c = true
matches_category (some s) none = s == ""
matches_category (some s) (some c) = (s == "") || (c == s)

abbrev pub matches_status : Option ContestStatus → ContestStatus → Bool
matches_status none c = true
matches_status (some s) c = same_contest_status c s

abbrev pub matches_search : (Text → Text → Bool) → Option Text → Text → Bool
matches_search like none title = true
matches_search like (some []) title = true
matches_search like (some (c ∷ cs)) title = like title (c ∷ cs)

abbrev pub selects : (Text → Text → Bool) → FindAllParams → Contest → Bool
selects like p c =
    matches_category p.category_id c.category_id
    && (matches_status p.status c.status && matches_search like p.search c.title)

unfoldable pub find_all_contests :
    (Text → Text → Bool) → FindAllParams → Exec World (List Contest × ℕ)
find_all_contests like p = gets (λ w.
    let rows = filter (selects like p) w.contests in
    (
      page_of (or_else p.page 1) (or_else p.limit 20) (newest_first (λ c. c.created_at) rows),
      length rows,
    ))

abbrev pub contest_row : CreateContestInput → String → ContestStatus → World → Contest
contest_row i created_by status w = record {
  id = fresh_id w;
  title = i.title;
  description = i.description;
  category_id = i.category_id;
  start_date = i.start_date;
  end_date = i.end_date;
  submission_deadline = i.submission_deadline;
  status = status;
  created_by = created_by;
  winner_id = none;
  created_at = w.now;
  updated_at = w.now;
}

unfoldable pub create_contest : CreateContestInput → String → ContestStatus → Exec World Contest
create_contest i created_by status w =
    let row = contest_row i created_by status w in
    (ok row, record w { contests = w.contests ++ row ∷ []; drawn = w.drawn + 1 })

-- `.set({ ...data, updatedAt: new Date() })`.
abbrev pub with_input : UpdateContestInput → ℕ → Contest → Contest
with_input i time c = record c {
  title = or_else i.title c.title;
  description = or_else i.description c.description;
  category_id = or_else i.category_id c.category_id;
  start_date = or_else i.start_date c.start_date;
  end_date = or_else i.end_date c.end_date;
  submission_deadline = or_else i.submission_deadline c.submission_deadline;
  status = or_else i.status c.status;
  winner_id = or_else i.winner_id c.winner_id;
  updated_at = time;
}

unfoldable pub update_contest : String → UpdateContestInput → Exec World (Option Contest)
update_contest i data_ w =
    let rows = update (is_contest i) (with_input data_ w.now) w.contests in
    (ok (find (is_contest i) rows), record w { contests = rows })

-- A category by its id is one of the ids that are asked for; no query where there are none.
unfoldable pub find_categories_by_ids : List String → Exec World (List ContestCategorySummary)
find_categories_by_ids ids = gets (λ w. filter (λ c. any (λ i. c.id == i) ids) w.categories)

unfoldable pub find_submission_by_id : String → Exec World (Option ContestSubmission)
find_submission_by_id i = gets (λ w. find (is_submission i) w.submissions)

-- A page of the entries of a contest.
unfoldable pub entries_page : String → ℕ → ℕ → World → List ContestSubmission
entries_page i page limit w =
    page_of page limit (newest_first (λ s. s.submitted_at) (filter (in_contest i) w.submissions))

unfoldable pub find_submissions_by_contest :
    String → ℕ → ℕ → Exec World (List ContestSubmission × ℕ)
unfolding entries_page
find_submissions_by_contest i page limit =
    gets (λ w. (entries_page i page limit w, count (in_contest i) w.submissions))

abbrev pub is_entry : String → String → ContestSubmission → Bool
is_entry contest_id author_id s = (s.contest_id == contest_id) && (s.author_id == author_id)

unfoldable pub find_submission_by_contest_and_author :
    String → String → Exec World (Option ContestSubmission)
find_submission_by_contest_and_author contest_id author_id =
    gets (λ w. find (is_entry contest_id author_id) w.submissions)

abbrev pub submission_row : String → String → String → World → ContestSubmission
submission_row contest_id story_id author_id w = record {
  id = fresh_id w;
  contest_id = contest_id;
  story_id = story_id;
  author_id = author_id;
  status = pending;
  submitted_at = w.now;
  reviewed_at = none;
  reviewed_by = none;
}

unfoldable pub create_submission : String → String → String → Exec World ContestSubmission
create_submission contest_id story_id author_id w =
    let row = submission_row contest_id story_id author_id w in
    (ok row, record w { submissions = w.submissions ++ row ∷ []; drawn = w.drawn + 1 })

abbrev pub reviewed : SubmissionStatus → String → ℕ → ContestSubmission → ContestSubmission
reviewed status reviewer time s = record s {
  status = status;
  reviewed_at = some time;
  reviewed_by = some reviewer;
}

unfoldable pub review_submission :
    String → SubmissionStatus → String → Exec World (Option ContestSubmission)
review_submission i status reviewer w =
    let rows = update (is_submission i) (reviewed status reviewer w.now) w.submissions in
    (ok (find (is_submission i) rows), record w { submissions = rows })

unfoldable pub find_vote_by_id : String → Exec World (Option ContestVote)
find_vote_by_id i = gets (λ w. find (is_vote i) w.votes)

abbrev pub is_ballot : String → String → String → ContestVote → Bool
is_ballot contest_id submission_id user_id v =
    (v.contest_id == contest_id) && ((v.submission_id == submission_id) && (v.user_id == user_id))

unfoldable pub find_vote_by_user_contest_submission :
    String → String → String → Exec World (Option ContestVote)
find_vote_by_user_contest_submission contest_id submission_id user_id =
    gets (λ w. find (is_ballot contest_id submission_id user_id) w.votes)

abbrev pub votes_for : String → List ContestVote → ℕ
votes_for i vs = length (filter (λ v. v.submission_id == i) vs)

unfoldable pub count_votes_by_submission : String → Exec World ℕ
count_votes_by_submission i = gets (λ w. votes_for i w.votes)

unfoldable pub count_votes_by_contest : String → Exec World ℕ
count_votes_by_contest i = gets (λ w. length (filter (λ v. v.contest_id == i) w.votes))

unfoldable pub find_votes_by_submission : String → Exec World (List ContestVote)
find_votes_by_submission i =
    gets (λ w. newest_first (λ v. v.created_at) (filter (λ v. v.submission_id == i) w.votes))

unfoldable pub find_votes_by_contest : String → ℕ → ℕ → Exec World (List ContestVote)
find_votes_by_contest i limit offset = gets (λ w.
    take limit
      (drop offset (newest_first (λ v. v.created_at) (filter (λ v. v.contest_id == i) w.votes))))

abbrev pub vote_row : String → String → String → World → ContestVote
vote_row contest_id submission_id user_id w = record {
  id = fresh_id w;
  contest_id = contest_id;
  submission_id = submission_id;
  user_id = user_id;
  created_at = w.now;
}

-- `castVote`: the unique index `contest_votes_unique_idx` refuses a second ballot.
unfoldable pub insert_vote : String → String → String → Exec World ContestVote
insert_vote contest_id submission_id user_id w =
    let row = vote_row contest_id submission_id user_id w in
    if any (is_ballot contest_id submission_id user_id) w.votes
    then (err uncaught, w)
    else (ok row, record w { votes = w.votes ++ row ∷ []; drawn = w.drawn + 1 })

unfoldable pub find_prize_by_id : String → Exec World (Option ContestPrize)
find_prize_by_id i = gets (λ w. find (λ (p : ContestPrize). p.id == i) w.prizes)

unfoldable pub create_prize : (String → ℕ → ContestPrize) → Exec World ContestPrize
create_prize row w =
    let prize = row (fresh_id w) w.now in
    (ok prize, record w { prizes = w.prizes ++ prize ∷ []; drawn = w.drawn + 1 })

unfoldable pub find_prizes_by_contest : String → Exec World (List ContestPrize)
find_prizes_by_contest i =
    gets (λ w. newest_first (λ p. p.created_at) (filter (λ p. p.contest_id == i) w.prizes))

-- The submission of a list with the most votes, the earlier one of the list among equals.
abbrev pub more_voted :
    List ContestVote → ContestSubmission → Option ContestSubmission → ContestSubmission
more_voted vs s none = s
more_voted vs s (some t) = if ltb (votes_for s.id vs) (votes_for t.id vs) then t else s

unfoldable pub most_voted : List ContestVote → List ContestSubmission → Option ContestSubmission
most_voted vs [] = none
most_voted vs (s ∷ ss) = some (more_voted vs s (most_voted vs ss))

-- `findWinningSubmission`: the count of the votes joined to each submission, in descending order.
unfoldable pub find_winning_submission : String → Exec World (Option ContestSubmission)
unfolding most_voted
find_winning_submission i = gets (λ w. most_voted w.votes (filter (in_contest i) w.submissions))
