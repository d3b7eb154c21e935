-- ===== src/Contests/Reads.antt =====
-- The operations of backend/src/modules/contests/contests.service.ts that only read. A date of a
-- response is the time that it prints.
use hakawi.Common.{
  ℕ, zero, ◌+◌, ◌-◌, ◌*◌, String, Bool, Option, none, some, List, [], ◌∷◌, ◌||◌, ◌==◌,
  if◌then◌else◌, any, find, map, filter, length, count, take, drop, or_else, Exec, pure, require,
  check, ◌>>=◌, ◌>>◌, not_found, forbidden,
}
use hakawi.Common.Text.{Text}
use hakawi.Contests.Store.{
  active, voting, completed, same_contest_status, pending, approved, rejected, SubmissionStatus,
  same_submission_status, Contest, ContestSubmission, ContestVote, ContestPrize,
  ContestCategorySummary, World,
}
use hakawi.Contests.Repository.{
  FindAllParams, find_categories_by_ids, find_all_contests, find_submissions_by_contest,
  find_submission_by_id, count_votes_by_submission, count_votes_by_contest,
  find_votes_by_submission, find_votes_by_contest, find_prizes_by_contest,
}
use hakawi.Contests.Service.{load_contest}
use hakawi.Contests.Entries.{entered}

-- `contest.categoryId` of each, without the missing and the repeated ones.
abbrev pub add_id : Option String → List String → List String
add_id none seen = seen
add_id (some i) seen = if any (λ k. k == i) seen then seen else i ∷ seen

abbrev pub category_ids : List Contest → List String
category_ids [] = []
category_ids (c ∷ cs) = add_id c.category_id (category_ids cs)

unfoldable pub load_category_index : List Contest → Exec World (List ContestCategorySummary)
unfolding find_categories_by_ids
load_category_index contests = find_categories_by_ids (category_ids contests)

abbrev pub name_of : Option ContestCategorySummary → Option String
name_of none = none
name_of (some c) = some c.name

abbrev pub category_of : Option String → List ContestCategorySummary → Option String
category_of none index = none
category_of (some i) index = name_of (find (λ (c : ContestCategorySummary). c.id == i) index)

-- A contest with the name of its category.
pub record ContestResponse : Type 0 where
  pub contest : Contest
  pub category : Option String

abbrev pub to_contest_response : List ContestCategorySummary → Contest → ContestResponse
to_contest_response index c = record { contest = c; category = category_of c.category_id index }

-- `cache.getOrSet`, by the copy that the cache holds.
abbrev pub get_or_load : Option Contest → Exec World Contest → Exec World Contest
get_or_load (some c) load = pure c
get_or_load none load = load

-- `findById` of the service.
unfoldable pub find_by_id : Option Contest → String → Exec World ContestResponse
unfolding load_contest load_category_index
find_by_id cached i = do
  contest ← get_or_load cached (load_contest i)
  index ← load_category_index (contest ∷ [])
  pure (to_contest_response index contest)

pub record ContestsList : Type 0 where
  pub contests : List ContestResponse
  pub total : ℕ
  pub page : ℕ
  pub limit : ℕ

unfoldable pub find_all : (Text → Text → Bool) → FindAllParams → Exec World ContestsList
unfolding find_all_contests load_category_index
find_all like p = do
  found ← find_all_contests like p
  index ← load_category_index found.0
  pure (record {
    contests = map (to_contest_response index) found.0;
    total = found.1;
    page = or_else p.page 1;
    limit = or_else p.limit 20;
  })

pub record Submissions : Type 0 where
  pub submissions : List ContestSubmission
  pub total : ℕ
  pub page : ℕ
  pub limit : ℕ

unfoldable pub get_submissions : String → Option ℕ → Option ℕ → Exec World Submissions
unfolding find_submissions_by_contest
get_submissions contest_id page limit = do
  found ← find_submissions_by_contest contest_id (or_else page 1) (or_else limit 20)
  pure (record {
    submissions = found.0;
    total = found.1;
    page = or_else page 1;
    limit = or_else limit 20;
  })

-- A vote without the account that cast it.
pub record PublicVote : Type 0 where
  pub id : String
  pub contest_id : String
  pub submission_id : String
  pub created_at : ℕ

abbrev pub to_public_vote_response : ContestVote → PublicVote
to_public_vote_response v = record {
  id = v.id;
  contest_id = v.contest_id;
  submission_id = v.submission_id;
  created_at = v.created_at;
}

pub record Votes : Type 0 where
  pub votes : List PublicVote
  pub total : ℕ
  pub page : ℕ
  pub limit : ℕ

-- `slice((page - 1) * limit, page * limit)`: no row for page 0.
abbrev pub slice_page : {A : Type 0} → ℕ → ℕ → List A → List A
slice_page page limit xs = drop ((page - 1) * limit) (take (page * limit) xs)

abbrev pub at_least_one : ℕ → ℕ
at_least_one zero = 1
at_least_one n = n

unfoldable pub votes_of_submission : String → String → ℕ → ℕ → Exec World Votes
unfolding find_submission_by_id find_votes_by_submission
votes_of_submission contest_id i page limit = do
  found ← find_submission_by_id i
  submission ← require (not_found "Submission not found in this contest") (entered contest_id found)
  votes ← find_votes_by_submission i
  pure (record {
    votes = slice_page page limit (map to_public_vote_response votes);
    total = length votes;
    page = page;
    limit = limit;
  })

unfoldable pub votes_of_contest : String → ℕ → ℕ → Exec World Votes
unfolding find_votes_by_contest count_votes_by_contest
votes_of_contest contest_id page limit = do
  rows ← find_votes_by_contest contest_id limit ((page - 1) * limit)
  total ← count_votes_by_contest contest_id
  pure (record {
    votes = map to_public_vote_response rows;
    total = total;
    page = page;
    limit = limit;
  })

unfoldable pub get_votes : String → Option String → Option ℕ → Option ℕ → Exec World Votes
unfolding votes_of_submission votes_of_contest
get_votes contest_id none page limit =
    votes_of_contest contest_id (at_least_one (or_else page 1)) (at_least_one (or_else limit 20))
get_votes contest_id (some i) page limit =
    if i == ""
    then votes_of_contest contest_id (at_least_one (or_else page 1))
        (at_least_one (or_else limit 20))
    else votes_of_submission contest_id i (or_else page 1) (or_else limit 20)

unfoldable pub get_prizes : String → Exec World (List ContestPrize)
unfolding load_contest find_prizes_by_contest
get_prizes contest_id = do contest ← load_contest contest_id; find_prizes_by_contest contest_id

pub record PublisherStats : Type 0 where
  pub total_contests : ℕ
  pub active_contests : ℕ
  pub completed_contests : ℕ
  pub total_submissions : ℕ
  pub pending_submissions : ℕ
  pub approved_submissions : ℕ
  pub rejected_submissions : ℕ
  pub total_votes : ℕ
  pub total_prizes : ℕ

abbrev pub has_status : SubmissionStatus → ContestSubmission → Bool
has_status status s = same_submission_status s.status status

-- One round of the loop of `getPublisherStats`.
unfoldable pub tally : Contest → PublisherStats → Exec World PublisherStats
unfolding find_submissions_by_contest count_votes_by_contest find_prizes_by_contest
tally contest stats = do
  found ← find_submissions_by_contest contest.id 1 1000
  votes ← count_votes_by_contest contest.id
  prizes ← find_prizes_by_contest contest.id
  pure (record stats {
    total_submissions = stats.total_submissions + found.1;
    pending_submissions = stats.pending_submissions + count (has_status pending) found.0;
    approved_submissions = stats.approved_submissions + count (has_status approved) found.0;
    rejected_submissions = stats.rejected_submissions + count (has_status rejected) found.0;
    total_votes = stats.total_votes + votes;
    total_prizes = stats.total_prizes + length prizes;
  })

unfoldable pub tally_each : List Contest → PublisherStats → Exec World PublisherStats
unfolding tally
tally_each [] stats = pure stats
tally_each (c ∷ cs) stats = do next ← tally c stats; tally_each cs next

abbrev no_params : FindAllParams
no_params = record { page = none; limit = none; category_id = none; status = none; search = none }

abbrev is_running : Contest → Bool
is_running c = same_contest_status c.status active || same_contest_status c.status voting

unfoldable pub get_publisher_stats : (Text → Text → Bool) → String → Exec World PublisherStats
unfolding find_all_contests tally_each
get_publisher_stats like publisher_id = do
  found ← find_all_contests like no_params
  let own = filter (λ (c : Contest). c.created_by == publisher_id) found.0
  tally_each own (record {
    total_contests = length own;
    active_contests = count is_running own;
    completed_contests = count (λ (c : Contest). same_contest_status c.status completed) own;
    total_submissions = 0;
    pending_submissions = 0;
    approved_submissions = 0;
    rejected_submissions = 0;
    total_votes = 0;
    total_prizes = 0;
  })

-- The checks of the two overviews, in their order.
unfoldable pub load_own_contest : String → String → Exec World Contest
unfolding load_contest
load_own_contest contest_id publisher_id = do
  contest ← load_contest contest_id
  check (contest.created_by == publisher_id) (forbidden "You do not have access to this contest")
  pure contest

unfoldable pub with_votes : List ContestSubmission → Exec World (List (ContestSubmission × ℕ))
unfolding count_votes_by_submission
with_votes [] = pure []
with_votes (s ∷ ss) = do
  votes ← count_votes_by_submission s.id
  rest ← with_votes ss
  pure ((s, votes) ∷ rest)

unfoldable pub get_publisher_submissions_overview :
    String → String → Exec World (List (ContestSubmission × ℕ))
unfolding load_own_contest find_submissions_by_contest with_votes
get_publisher_submissions_overview contest_id publisher_id = do
  contest ← load_own_contest contest_id publisher_id
  found ← find_submissions_by_contest contest_id 1 1000
  with_votes found.0

unfoldable pub get_publisher_votes_overview : String → String → Exec World (List ContestVote)
unfolding load_own_contest find_votes_by_contest
get_publisher_votes_overview contest_id publisher_id = do
  contest ← load_own_contest contest_id publisher_id
  find_votes_by_contest contest_id 1000 0
