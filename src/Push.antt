-- ===== src/Push.antt =====
-- internal/push/push.go: the delivery of a wake-up to a UnifiedPush distributor.
use sund.Prelude.{
  ℕ, Bool, not, Option, none, some, List, [], ◌∷◌, String, Bytes, leb, if◌then◌else◌,
}
use sund.Server.Types.{Priority, normal, high}

-- The request of a ping.
pub record Post : Type 0 where
  pub method : String
  pub endpoint : String
  pub headers : List (String × String)
  pub body : Bytes

-- http.NewRequest's check of an endpoint, and http.Client.Do: the status of an answer, if one comes.
pub record Poster : Type 0 where
  pub is_endpoint : String → Bool
  pub send : Post → Option ℕ

-- Why Ping fails.
pub data PingError : Type 0 where
  bad_endpoint no_answer : PingError
  refused : ℕ → PingError

abbrev priority_headers : Priority → List (String × String)
priority_headers normal = []
priority_headers high = ("Priority", "high") ∷ []

unfoldable pub post_of : String → Priority → Post
post_of endpoint priority = record {
  method = "POST";
  endpoint = endpoint;
  headers = priority_headers priority;
  body = [];
}

-- UnifiedPush.Ping: `none` is success.
unfoldable pub ping : Poster → String → Priority → Option PingError
unfolding post_of
ping poster endpoint priority =
    if not (poster.is_endpoint endpoint)
    then some bad_endpoint
    else elim (poster.send (post_of endpoint priority)) [
      | none ↦ some no_answer
      | some status ↦ if leb 400 status then some (refused status) else none
    ]
