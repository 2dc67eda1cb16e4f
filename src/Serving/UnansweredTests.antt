-- ===== src/Serving/UnansweredTests.antt =====
-- Runs of a search that fails, and of a request to the handler of group searches.
use bserver.Base.{inl, ◌≡◌, refl, [], ◌∷◌, text, some, decimal, bytes_eq}
use bserver.Base.Maps.{lookup, insert}
use bserver.Message.{Head}
use bserver.Session.{new_session}
use bserver.Tasks.{task_base}
use bserver.Peers
use bserver.Peers.Client.{no_clients, fix_set, fix_get, name}
use bserver.Proto.{ServiceRequest}
use bserver.Responders.Samples.{sample, packet_of}
use bserver.Responders.Groups.{find_near}
use bserver.World.{World}
use bserver.Logic.{do_work}
use bserver.Serving.Unanswered.{sent_empty, do_work-FailedSearch, do_work_group}

-- One connection, session 5.
abbrev world : World
world = record {
  peers = [];
  clients = (fix_set (text "server:a:80") (name (text "server:a:80") 0) (some 5) no_clients).1;
  sessions = λ k. new_session (record { magic = 0; len = 0; cmd = 0 });
  queue = task_base;
  send_count = 1;
  rand = λ n. n;
  rand_calls = 0;
}

abbrev search : Head
search = record { magic = 7; len = 13; cmd = 200 }

abbrev group_search : Head
group_search = record { magic = 7; len = 13; cmd = 7818 }

abbrev request : ServiceRequest
request = record { sessid = text "u"; service_type = 600; sn = text "n"; payload = some (27 ∷ []) }

found_at_5 : fix_get (text "server:a:80:0") world.clients ≡ some 5
unfolding fix_get Peers.get fix_set name decimal lookup insert bytes_eq
found_at_5 = refl

do_work-FailedSearch_example :
    do_work sample (text "server:a:80:0") search (27 ∷ []) world
    ≡ sent_empty sample 5 search 201 world
unfolding find_near
do_work-FailedSearch_example =
    do_work-FailedSearch sample b's' (text "erver:a:80:0") search (27 ∷ []) world 5 request
      (27 ∷ []) (packet_of 27) refl found_at_5 refl refl refl refl (inl (refl, λ e. cc))

do_work_group_example :
    do_work sample (text "server:a:80:0") group_search (29 ∷ []) world
    ≡ sent_empty sample 5 group_search 7819 world
do_work_group_example =
    do_work_group sample b's' (text "erver:a:80:0") group_search (29 ∷ []) world 5 refl found_at_5
