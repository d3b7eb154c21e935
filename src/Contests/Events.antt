-- ===== src/Contests/Events.antt =====
-- backend/src/modules/contests/events/contests.event-handler.ts: the notifications that each event
-- asks for. `deliver` swallows the error of a notification, so each of them is tried.
use hakawi.Common.{
  String, Option, none, some, List, [], ◌∷◌, ◌++◌, ◌==◌, if◌then◌else◌, any, find, map,
}
use hakawi.Contests.Store.{
  ContestSubmission, ContestEvent, contest_created, contest_updated, contest_started,
  contest_cancelled, contest_completed, submission_submitted, submission_approved,
  submission_rejected, vote_cast, winner_selected, prize_distributed, World,
}
use hakawi.Contests.Repository.{is_submission, entries_page}

pub record Notification : Type 0 where
  pub user_id : String
  pub type_ : String
  pub title : String
  pub message : String
  pub data_ : List (String × String)

abbrev pub author_of : Option ContestSubmission → Option String
author_of none = none
author_of (some s) = some s.author_id

abbrev about_entry : String → String → List (String × String)
about_entry s c = ("submissionId", s) ∷ ("contestId", c) ∷ []

-- `authorOf`.
unfoldable pub find_author : World → String → Option String
find_author w i = author_of (find (is_submission i) w.submissions)

-- `submissionIdsFor`.
unfoldable pub submission_ids_for : World → String → List String
unfolding entries_page
submission_ids_for w contest_id =
    map (λ (s : ContestSubmission). s.id) (entries_page contest_id 1 1000 w)

-- `seen.add`.
abbrev add_distinct : Option String → List String → List String
add_distinct none seen = seen
add_distinct (some a) seen = if any (λ b. b == a) seen then seen else seen ++ a ∷ []

unfoldable pub add_authors : World → List String → List String → List String
unfolding find_author
add_authors w [] seen = seen
add_authors w (i ∷ is) seen = add_authors w is (add_distinct (find_author w i) seen)

-- `authorsOf`.
unfoldable pub authors_of : World → List String → List String
unfolding add_authors
authors_of w is = add_authors w is []

-- The author of the entry, unless it is the voter.
abbrev to_author : Option String → String → String → String → List Notification
to_author none voter s c = []
to_author (some a) voter s c =
    if a == voter
    then []
    else record {
      user_id = a;
      type_ = "system";
      title = "Your story got a vote";
      message = "Someone voted for your entry.";
      data_ = about_entry s c;
    }
      ∷ []

abbrev started_notice : String → String → Notification
started_notice c a = record {
  user_id = a;
  type_ = "contest";
  title = "Your contest has started";
  message = "Voting is now open.";
  data_ = ("contestId", c) ∷ [];
}

unfoldable pub handle_event : ContestEvent → World → List Notification
unfolding find_author submission_ids_for authors_of
handle_event (contest_created c u) w = []
handle_event (contest_updated c) w = []
handle_event (contest_cancelled c) w = []
handle_event (contest_completed c a) w = []
handle_event (submission_submitted s c a) w =
    record {
      user_id = a;
      type_ = "submission.review";
      title = "Your story was submitted";
      message = "Your entry is awaiting review.";
      data_ = about_entry s c;
    }
    ∷ []
handle_event (submission_approved s c a) w =
    record {
      user_id = a;
      type_ = "contest";
      title = "Your entry was approved";
      message = "Your story is now in the running.";
      data_ = about_entry s c;
    }
    ∷ []
handle_event (submission_rejected s c a) w =
    record {
      user_id = a;
      type_ = "contest";
      title = "Your entry was not accepted";
      message = "This time it did not make the running.";
      data_ = about_entry s c;
    }
    ∷ []
handle_event (vote_cast v c s u) w = to_author (find_author w s) u s c
handle_event (winner_selected c s a) w =
    record {
      user_id = a;
      type_ = "contest";
      title = "Congratulations — you won";
      message = "Your entry took first place.";
      data_ = ("contestId", c) ∷ ("submissionId", s) ∷ [];
    }
    ∷ []
handle_event (contest_started c) w = map (started_notice c) (authors_of w (submission_ids_for w c))
handle_event (prize_distributed p c a) w =
    record {
      user_id = a;
      type_ = "payment";
      title = "Your prize";
      message = "Your prize has been sent.";
      data_ = ("contestId", c) ∷ ("prizeId", p) ∷ [];
    }
    ∷ []
