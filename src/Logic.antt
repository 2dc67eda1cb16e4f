-- ===== src/Logic.antt =====
-- src/logic_deal_processing.cpp: which handler a task goes to, and what is done with its answer.
pub mod Dispatch
pub mod Standard
pub mod Push
pub mod Replies
pub mod Pushed
mod Tests
use bserver.Base.{
  ℕ, Bool, true, false, List, [], ◌∷◌, Bytes, Option, none, some, ◌==◌, if◌then◌else◌,
}
use bserver.Message.{Head}
use bserver.Http.{HttpRequest}
use bserver.Proto.{Env}
use bserver.Responders.Result.{ServiceResponseResult}
use bserver.Responders.Busy.{busy_parser}
use bserver.Responders.Service.{server_service_parser, group_service_parser, python_service_parser}
use bserver.World.{World}
use Dispatch.{server_response}
use Push.{push_parser}

-- The classes that `do_work` creates, by the command.
pub data Responser : Type 0 where
  server_service : Responser
  server_service_response : Responser
  group_service : Responser
  python_service : Responser
  package_busy : Responser

unfoldable pub responser_of : ℕ → Option Responser
responser_of cmd =
    if cmd == 200
    then some server_service
    else if cmd == 6666
    then some server_service_response
    else if cmd == 7818
    then some group_service
    else if cmd == 8000
    then some python_service
    else if cmd == 1010
    then some package_busy
    else none

-- What `parser` gives, with the world after it. Exceptions are not modelled: what is outside the
-- program returns.
unfoldable pub parse_with : Env → Responser → Bytes → World → ServiceResponseResult × Bytes × World
parse_with env server_service bytes w =
    let (res, r, calls) = server_service_parser env bytes [] in (res, r, w)
parse_with env server_service_response bytes w =
    let (res, w') = push_parser env bytes w in (res, [], w')
parse_with env group_service bytes w =
    let (res, r, calls) = group_service_parser env bytes [] in (res, r, w)
parse_with env python_service bytes w =
    let (res, r, calls) = python_service_parser env bytes [] in (res, r, w)
parse_with env package_busy bytes w = let (res, r) = busy_parser env bytes [] in (res, r, w)

-- The virtual member `response`.
unfoldable pub respond_with : Env → Responser → Bytes → Head → Bytes → World → World
respond_with env server_service id h body w = server_response env id h body w
respond_with env server_service_response id h body w = w
respond_with env group_service id h body w = server_response env id h body w
respond_with env python_service id h body w = server_response env id h body w
respond_with env package_busy id h body w = w

unfoldable pub run_responser : Env → Responser → Bytes → Head → Bytes → World → World
unfolding parse_with respond_with
run_responser env r id h bytes w =
    let (res, body, w') = parse_with env r bytes w in
    if res.is_async then w' else respond_with env r id h body w'

unfoldable pub do_work : Env → Bytes → Head → Bytes → World → World
do_work env id h bytes w = elim (responser_of h.cmd) [
  | none ↦ w
  | some r ↦ run_responser env r id h bytes w
]
