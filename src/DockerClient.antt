-- ===== src/DockerClient.antt =====
-- docker/src/client.rs and containers.rs: the client of Docker's API over one connection. The Unix
-- socket, hyper's connection and the encoders are parameters over a world that each call may change.
pub mod Model
pub mod Closed
pub mod Connected
mod Tests
use pingoo.Prelude.{
  ℕ, String, List, [], ◌∷◌, Option, none, some, Bool, true, false, eqb, append, is_some,
  if◌then◌else◌, Result, ok, err, ◌>>=◌, ok_or, ensure,
}
use pingoo.DockerClient.Model.{ListContainersOptions, ContainerSummary}

abbrev pub default_docker_socket : String
default_docker_socket = "/var/run/docker.sock"

pub data Error : Type 0 where
  connecting_failed handshake_failed query_invalid url_invalid body_invalid request_invalid
        sending_failed reading_failed parsing_failed :
      Error
  status_not_ok : ℕ → Error
  panicked : Error

pub record Request : Type 0 where
  pub path_and_query : String
  pub body : String

-- `body` is what collecting the body gives
pub record Response : Type 0 where
  pub status : ℕ
  pub body : Option String

-- `World` is what the calls may change outside the client.
pub record Hyper (World Stream Sender : Type 0) : Type 0 where
  pub connect : World → String → World × Option Stream
  pub handshake : World → Stream → World × Option Sender
  pub send_request : World → Sender → Request → World × Option Response
  pub is_uri : String → Bool
  pub is_request : Request → Bool

pub record Client (Sender : Type 0) : Type 0 where
  pub socket_path : String
  pub socket : Option Sender

unfoldable pub new : {Sender : Type 0} → Option String → Client Sender
new none = record { socket_path = default_docker_socket; socket = none }
new (some path) = record { socket_path = path; socket = none }

module _ {World Stream Sender : Type 0} (hyper : Hyper World Stream Sender) where
  -- the world, the client and what a call of it returns
  abbrev pub After : Type 0 → Type 0
  After A = World × Client Sender × Result A Error

  abbrev pub after_handshake : Client Sender → World × Option Sender → After (Unit {0})
  after_handshake c (w, none) = (w, c, err handshake_failed)
  after_handshake c (w, some sender) = (w, record c { socket = some sender }, ok tt)

  abbrev pub after_connect : Client Sender → World × Option Stream → After (Unit {0})
  after_connect c (w, none) = (w, c, err connecting_failed)
  after_connect c (w, some stream) = after_handshake c (hyper.handshake w stream)

  unfoldable pub connect : World → Client Sender → After (Unit {0})
  connect w c =
      if is_some c.socket then (w, c, ok tt) else after_connect c (hyper.connect w c.socket_path)

  module _ {Query Answer : Type 0} (to_query : Query → Option String)
      (to_json : Query → Option String) (from_json : String → Option Answer) where
    -- `serde_urlencoded`, if there is a query
    abbrev pub with_query : String → Option Query → Result String Error
    with_query path none = ok path
    with_query path (some query) =
        ok_or (to_query query) query_invalid >>= λ text. ok (append path (append "?" text))

    abbrev pub body_of : Option Query → Result String Error
    body_of none = ok ""
    body_of (some body) = ok_or (to_json body) body_invalid

    unfoldable pub request_of : String → Option Query → Option Query → Result Request Error
    request_of path query body = do
      path_and_query ← with_query path query
      ensure (hyper.is_uri path_and_query) url_invalid (do
        text ← body_of body
        let request : Request = record { path_and_query = path_and_query; body = text }
        ensure (hyper.is_request request) request_invalid (ok request))

    unfoldable pub answer_of : Response → Result Answer Error
    answer_of response =
        ensure (eqb response.status 200) (status_not_ok response.status)
          (ok_or response.body reading_failed >>= λ body. ok_or (from_json body) parsing_failed)

    abbrev pub after_send : Client Sender → World × Option Response → After Answer
    after_send c (w, none) = (w, c, err sending_failed)
    after_send c (w, some response) = (w, c, answer_of response)

    -- `unwrap` of the socket
    abbrev pub send : World → Client Sender → Option Sender → Request → After Answer
    send w c none request = (w, c, err panicked)
    send w c (some sender) request = after_send c (hyper.send_request w sender request)

    abbrev pub prepared : World → Client Sender → Result Request Error → After Answer
    prepared w c (err e) = (w, c, err e)
    prepared w c (ok request) = send w c c.socket request

    abbrev pub connected : Result Request Error → After (Unit {0}) → After Answer
    connected request (w, c, err e) = (w, c, err e)
    connected request (w, c, ok _) = prepared w c request

    unfoldable pub send_request :
        World → Client Sender → String → Option Query → Option Query → After Answer
    send_request w c path query body =
        connected (request_of path query body)
          (if is_some c.socket then (w, c, ok tt) else connect w c)

  module _ (to_query : ListContainersOptions → Option String)
      (to_json : ListContainersOptions → Option String)
      (from_json : String → Option (List ContainerSummary)) where
    unfoldable pub list_containers :
        World → Client Sender → Option ListContainersOptions → After (List ContainerSummary)
    list_containers w c options =
        send_request to_query to_json from_json w c "/containers/json" options none
