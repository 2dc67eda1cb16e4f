-- ===== src/Tasks/Tests.antt =====
-- Runs of src/task_base.cpp: a short queue, and one that is too long.
use bserver.Base.{◌≡◌, refl, false, [], ◌∷◌, ◌++◌, map, text, some}
use bserver.Message.{MessageFormat, meet_head, payload, message_format}
use bserver.Tasks.{TaskBase, task_base, push, try_pop}
use bserver.Tasks.Order.{
  History, new_history, pushes, Reach, here, next, content, contents_of, tasks_in_order,
}

abbrev message : MessageFormat
unfolding message_format
message = record (message_format (record { magic = 5; len = 14; cmd = 200 })) {
  body = text "hi";
  body_length = 2;
  remote_id = text "server:a:1:0";
}

abbrev two_queued : TaskBase
two_queued = record { deque = message ∷ message ∷ []; stop = false }

busy_task :
    try_pop 1 two_queued
    ≡ some (
      record {
        bytes = text "hi";
        head = record { magic = 5; len = 14; cmd = 1010 };
        id = text "server:a:1:0";
      },
      record { deque = message ∷ []; stop = false },
    )
unfolding try_pop payload meet_head message_format
busy_task = refl

abbrev after_push : History
after_push = record { queue = push message task_base; pushed = message ∷ []; taken = [] }

after_push-Reach : Reach 10 new_history after_push
unfolding task_base
after_push-Reach = next here (pushes message)

tasks_in_order_example :
    map content after_push.taken ++ map contents_of after_push.queue.deque
    ≡ map contents_of after_push.pushed
tasks_in_order_example = tasks_in_order 10 after_push after_push-Reach

abbrev empty_queue : TaskBase
empty_queue = record { deque = []; stop = false }
