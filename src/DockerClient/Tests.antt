-- ===== src/DockerClient/Tests.antt =====
-- A daemon that closes the connection after two requests: the world counts the requests.
use pingoo.Prelude.{
  ℕ, suc, String, [], ◌∷◌, Option, none, some, true, ◌≡◌, ◌≢◌, refl, if◌then◌else◌, ok, err, ltb,
  All,
}
use pingoo.DockerClient.{
  panicked, sending_failed, Hyper, Client, new, connect, request_of, answer_of, send_request,
}
use pingoo.DockerClient.Closed.{Call, IsErr, run, run-closed}
use pingoo.DockerClient.Connected.{send_request-ne-panicked}

abbrev daemon : Hyper ℕ (Unit {0}) (Unit {0})
daemon = record {
  connect = λ w path. (w, some tt);
  handshake = λ w stream. (w, some tt);
  send_request = λ w sender request.
      if ltb w 2
      then (suc w, some (record { status = 200; body = some request.path_and_query }))
      else (w, none);
  is_uri = λ uri. true;
  is_request = λ request. true;
}

abbrev stopped : Hyper ℕ (Unit {0}) (Unit {0})
stopped = record daemon { send_request = λ w sender request. (suc w, none) }

abbrev text : String → Option String
text s = some s

abbrev connected : Client (Unit {0})
connected = record { socket_path = "/var/run/docker.sock"; socket = some tt }

abbrev list : Call daemon text text text
list = ("/containers/json", none, none)

three_requests :
    (run daemon text text text 0 (new none) (list ∷ list ∷ list ∷ [])).2
    ≡ ok "/containers/json" ∷ ok "/containers/json" ∷ err sending_failed ∷ []
unfolding run send_request request_of connect answer_of new
three_requests = refl

run-closed_example :
    ((run stopped text text text 0 connected (list ∷ [])).1 ≡ connected)
    × All (IsErr stopped text text text) (run stopped text text text 0 connected (list ∷ [])).2
run-closed_example =
    run-closed stopped text text text connected tt refl (λ w request. refl) 0 (list ∷ [])

send_request-ne-panicked_example :
    (send_request daemon text text text 0 (new none) "/containers/json" (some "all") none).2
    ≢ err panicked
send_request-ne-panicked_example =
    send_request-ne-panicked daemon text text text 0 (new none) "/containers/json" (some "all") none
