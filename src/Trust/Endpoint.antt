-- ===== src/Trust/Endpoint.antt =====
-- The test of an endpoint by NewFactory in internal/connector/streamhttp/http.go. net/url is `parse`.
use skillex.Prelude.{
  Bool, false, ◌&&◌, ◌||◌, not, Option, none, some, Text, codes, is_empty, text_eq, to_lower,
}

-- The fields of *url.URL that are looked at, with Hostname().
pub record ParsedUrl : Type 0 where
  pub scheme : Text
  pub host : Text
  pub hostname : Text
  pub has_user : Bool
  pub raw_query : Text
  pub fragment : Text

-- isLoopbackHost
unfoldable pub is_loopback_host : Text → Bool
unfolding to_lower
is_loopback_host host =
    let h = to_lower host in
    text_eq h (codes "localhost") || (text_eq h (codes "127.0.0.1") || text_eq h (codes "::1"))

-- What NewFactory there tests of one endpoint.
unfoldable pub is_valid_endpoint : (Text → Option ParsedUrl) → Text → Bool
is_valid_endpoint parse endpoint = elim (parse endpoint) [
  | none ↦ false
  | some u ↦
      not (
        is_empty u.scheme
        || (is_empty u.host
            || (u.has_user || (not (is_empty u.raw_query) || not (is_empty u.fragment)))))
      && (text_eq u.scheme (codes "https")
          || (text_eq u.scheme (codes "http") && is_loopback_host u.hostname))
]
