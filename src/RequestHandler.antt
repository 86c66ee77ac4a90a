-- ===== src/RequestHandler.antt =====
-- Server/RequestHandler.h: the base of the user's handlers. Its strand is a boost::asio::strand of the
-- server's io_service; a StrandPtr is an address of the strands that were made, which keep what
-- was posted in them also when the handler has another one by now.
use santiago_old.Prelude.{ℕ, suc, ◌==◌, Option, none, some, List, [], ◌∷◌, ◌++◌, if◌then◌else◌}
use santiago_old.Exec.{
  Exec, ok, thrown, halted, handler_not_initialized, null_dereference, ◌>>=◌, ◌>>◌,
}
use santiago_old.Request.{RequestId}

-- What is posted in a handler's strand: the handleRequest of the user with the Server::Request that
-- has this id, or a callback of the user, by the number that the user gives it.
pub data HandlerTask : Type 0 where
  handle_request_task : RequestId → HandlerTask
  callback_task : ℕ → HandlerTask

pub record RequestHandler : Type 0 where
  pub strand : Option ℕ

-- The strands, with the tasks that wait in each, oldest first.
pub record Strands : Type 0 where
  pub tasks : ℕ → List HandlerTask
  pub next_strand : ℕ

pub record Hosted : Type 0 where
  pub handler : RequestHandler
  pub strands : Strands

-- The io_service of the server, of which there is one.
pub data IoService : Type 0 where
  io_service : IoService

-- The constructor.
unfoldable pub new_request_handler : RequestHandler
new_request_handler = record { strand = none }

abbrev pub set_tasks : ℕ → List HandlerTask → (ℕ → List HandlerTask) → ℕ → List HandlerTask
set_tasks s ts tasks t = if s == t then ts else tasks t

-- boost::asio::strand::post
unfoldable pub post : ℕ → HandlerTask → Exec Hosted (Unit {0})
post s task h = (
  ok tt,
  record h {
    strands = record h.strands {
      tasks = set_tasks s (h.strands.tasks s ++ (task ∷ [])) h.strands.tasks;
    };
  },
)

-- checkIsInitialized
unfoldable pub check_is_initialized : Exec Hosted (Unit {0})
check_is_initialized h = elim h.handler.strand [
  | none ↦ (thrown handler_not_initialized, h)
  | some _ ↦ (ok tt, h)
]

-- *_strand
unfoldable pub dereference : Exec Hosted ℕ
dereference h = elim h.handler.strand [ none ↦ (halted null_dereference, h) | some s ↦ (ok s, h) ]

-- getStrand
unfoldable pub get_strand : Exec Hosted ℕ
get_strand = do check_is_initialized; dereference

-- getIOService
unfoldable pub get_io_service : Exec Hosted IoService
get_io_service = do check_is_initialized; s ← dereference; λ h. (ok io_service, h)

-- postInStrand
unfoldable pub post_in_strand : ℕ → Exec Hosted (Unit {0})
post_in_strand callback_fn = do
  check_is_initialized
  s ← dereference
  post s (callback_task callback_fn)

-- init makes a new strand.
unfoldable pub init : Hosted → Hosted
init h = record {
  handler = record { strand = some h.strands.next_strand };
  strands = record {
    tasks = set_tasks h.strands.next_strand [] h.strands.tasks;
    next_strand = suc h.strands.next_strand;
  };
}
