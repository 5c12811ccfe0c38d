-- ===== src/Connectors/Reddit.antt =====
-- api/internal/connectors/reddit.go. The HTTP exchanges with the OAuth and the search endpoint, the JSON
-- decoder and the conversion of the float64 `created_utc` to seconds are parameters; the search URL is
-- taken to parse.
pub mod Tokens
use sentilyzer.Prelude.{
  ℕ, ◌+◌, ◌-◌, ◌*◌, ◌^◌, ◌%◌, ◌==◌, Bool, true, false, not, ◌&&◌, Option, none, some, List, [], ◌∷◌,
  ◌++◌, Str, ltb, leb, if◌then◌else◌,
}
use sentilyzer.Prelude.Int.{ℤ, pos, negsuc, is_positive}
use sentilyzer.Prelude.Text.{codes, is_empty, itoa, trim_space}
use sentilyzer.Errors.{GoError, text, wrap, Result, done, fail}
use sentilyzer.Domain.{SourcedDocument}
use sentilyzer.Config.{RedditCreds, reddit_enabled}
use sentilyzer.Connectors.{Query}
use sentilyzer.Connectors.Location.{and_location}

-- redditTokenResp
pub record TokenBody : Type 0 where
  pub access_token : Str
  pub expires_in : ℤ

pub record TokenReply : Type 0 where
  pub code : ℕ
  pub body : Result TokenBody

-- The cached token and its expiry, in nanoseconds; the mutex makes token_for one step.
pub record TokenCache : Type 0 where
  pub token : Str
  pub token_exp : ℕ

-- the data of one child
pub record RedditPost : Type 0 where
  pub id : Str
  pub author : Str
  pub title : Str
  pub selftext : Str
  pub permalink : Str
  pub created_utc : ℕ

pub record RedditReply : Type 0 where
  pub code : ℕ
  pub body : Result (List RedditPost)

pub record RedditRequest : Type 0 where
  pub q : Str
  pub limit : ℕ
  pub t : Option Str
  pub token : Str

-- What one call of tokenFor meets: the clock when it checks the cache, what the token endpoint answers,
-- and the clock when the answer is read.
pub record Turn : Type 0 where
  pub now : ℕ
  pub reply : Result TokenReply
  pub answered : ℕ

-- `now` and so many seconds, as an int64 of nanoseconds
unfoldable pub expiry : ℕ → ℤ → ℕ
expiry now (pos n) =
    let d = n * 1_000_000_000 % 2 ^ 64 in if ltb d (2 ^ 63) then now + d else now - (2 ^ 64 - d)
expiry now (negsuc n) =
    let d = (n + 1) * 1_000_000_000 % 2 ^ 64 in
    if leb d (2 ^ 63) then now - d else now + (2 ^ 64 - d)

-- the token and its expiry
unfoldable pub fetch_token : Turn → Result (Str × ℕ)
fetch_token turn = elim turn.reply [
  | fail err ↦ fail (wrap (codes "reddit token: ") err [])
  | done r ↦
      if not (r.code == 200)
      then fail (text (codes "reddit token: status " ++ itoa r.code))
      else elim r.body [
        | fail err ↦ fail (wrap (codes "reddit token decode: ") err [])
        | done b ↦ done (b.access_token, expiry turn.answered b.expires_in)
      ]
]

-- 30 s before the expiry at the latest
unfoldable pub still_good : TokenCache → ℕ → Bool
still_good c now = not (is_empty c.token) && ltb (now + 30_000_000_000) c.token_exp

unfoldable pub token_for : Turn → TokenCache → Result Str × TokenCache
token_for turn c = if still_good c turn.now then (done c.token, c) else elim (fetch_token turn) [
  | fail err ↦ (fail err, c)
  | done (token, exp) ↦ (done token, record { token = token; token_exp = exp })
]

-- `limit`: 25 if it is not positive, at most 100
unfoldable pub post_limit : ℤ → ℕ
post_limit (pos n) = if n == 0 then 25 else if ltb 100 n then 100 else n
post_limit (negsuc n) = 25

unfoldable pub reddit_time_window : ℤ → Str
reddit_time_window (negsuc n) = codes "hour"
reddit_time_window (pos secs) =
    if leb secs 3600
    then codes "hour"
    else if leb secs 86_400
    then codes "day"
    else if leb secs 604_800
    then codes "week"
    else if leb secs 2_592_000
    then codes "month"
    else if leb secs 31_536_000
    then codes "year"
    else codes "all"

unfoldable pub reddit_request : Query → Str → RedditRequest
unfolding post_limit reddit_time_window and_location
reddit_request q token = record {
  q = and_location q.topic q.location;
  limit = post_limit q.limit;
  t = if is_positive q.since_seconds then some (reddit_time_window q.since_seconds) else none;
  token = token;
}

-- the title, and the text on a line of its own
unfoldable pub post_text : RedditPost → Str
post_text d =
    let title = trim_space d.title in
    if not (is_empty d.selftext) then title ++ (codes "\n" ++ d.selftext) else title

unfoldable pub reddit_documents : List RedditPost → List SourcedDocument
unfolding post_text
reddit_documents [] = []
reddit_documents (d ∷ ds) =
    let rest = reddit_documents ds in
    let body = post_text d in
    if is_empty body
    then rest
    else record {
      document = record {
        id = codes "reddit-" ++ d.id;
        text = body;
        language = [];
        aspects = [];
        metadata = [];
      };
      platform = codes "reddit";
      url = codes "https://www.reddit.com" ++ d.permalink;
      author = d.author;
      posted_at = d.created_utc * 1_000_000_000;
    }
      ∷ rest

unfoldable pub read_posts : Result RedditReply → Result (List SourcedDocument)
unfolding reddit_documents
read_posts (fail err) = fail (wrap (codes "reddit search: ") err [])
read_posts (done r) =
    if not (r.code == 200)
    then fail (text (codes "reddit search: status " ++ itoa r.code))
    else elim r.body [
      | fail err ↦ fail (wrap (codes "reddit search decode: ") err [])
      | done posts ↦ done (reddit_documents posts)
    ]

unfoldable pub search :
    RedditCreds
    → (RedditRequest → Result RedditReply)
    → Turn
    → Query
    → TokenCache
    → Result (List SourcedDocument) × TokenCache
unfolding token_for reddit_request read_posts
search creds exchange turn q c =
    let got = token_for turn c in
    if not (reddit_enabled creds)
    then (done [], c)
    else if is_empty q.topic
    then (done [], c)
    else (
      elim got.0 [
        | fail err ↦ fail err
        | done token ↦ read_posts (exchange (reddit_request q token))
      ],
      got.1,
    )
