-- ===== src/Wire/Message.antt =====
-- crates/oxigeon-lua/src/wire.rs: the messages, with `ComputeSettings` of settings.rs and `Ending` of
-- vm.rs. A `String` is the list of its bytes.
pub mod RoundTrip
use oxigeon.Base.{
  ℕ, zero, suc, Bool, List, [], ◌∷◌, ◌++◌, Option, none, some, ◌==◌, if◌then◌else◌, Bytes, length,
}
use oxigeon.Wire.Cursor.{
  bad_server_tag, bad_ending, bad_worker_tag, Decoded, ok, err, Read, pure, fail, ◌>>=◌, put_u8,
  put_u64, put_bytes, get_u8, get_u64, get_string, new,
}
use oxigeon.Wire.Value.{LuaData, put_data, get_data}

pub record ComputeSettings : Type 0 where
  pub instruction_limit : ℕ
  pub memory_mb : ℕ
  pub max_arg_depth : ℕ
  pub max_arg_nodes : ℕ

pub data ToWorker : Type 0 where
  hello : ComputeSettings → Bytes → Bytes → ℕ → ToWorker
  job : ℕ → Bytes → Bytes → LuaData → ℕ → ToWorker
  cancel : ℕ → ToWorker

pub data Ending : Type 0 where
  ok_ending error load_error timeout cancelled budget refused : Ending

pub data ToServer : Type 0 where
  ready : ToServer
  broken : Bytes → ToServer
  finished : ℕ → Ending → LuaData → Option Bytes → List (Bytes × Bytes) → ToServer

unfoldable pub encode_to_worker : ToWorker → Bytes
encode_to_worker (hello settings mudlib game salt) =
    put_u8 1
    ++ (put_u64 settings.instruction_limit
        ++ (put_u64 settings.memory_mb
            ++ (put_u64 settings.max_arg_depth
                ++ (put_u64 settings.max_arg_nodes
                    ++ (put_bytes mudlib ++ (put_bytes game ++ put_u64 salt))))))
encode_to_worker (job id module_name func args deadline_ms) =
    put_u8 2
    ++ (put_u64 id
        ++ (put_bytes module_name ++ (put_bytes func ++ (put_data args ++ put_u64 deadline_ms))))
encode_to_worker (cancel id) = put_u8 3 ++ put_u64 id

get_hello : Read ToWorker
get_hello = do
  instruction_limit ← get_u64
  memory_mb ← get_u64
  max_arg_depth ← get_u64
  max_arg_nodes ← get_u64
  mudlib ← get_string
  game ← get_string
  salt ← get_u64
  pure (
      hello
        (record {
          instruction_limit = instruction_limit;
          memory_mb = memory_mb;
          max_arg_depth = max_arg_depth;
          max_arg_nodes = max_arg_nodes;
        })
        mudlib game salt)

get_job : Read ToWorker
get_job = do
  id ← get_u64
  module_name ← get_string
  func ← get_string
  args ← get_data
  deadline_ms ← get_u64
  pure (job id module_name func args deadline_ms)

to_worker_of : ℕ → Read ToWorker
unfolding get_hello get_job
to_worker_of tag =
    if tag == 1
    then get_hello
    else if tag == 2
    then get_job
    else if tag == 3
    then (do id ← get_u64; pure (cancel id))
    else fail (bad_server_tag tag)

get_to_worker : Read ToWorker
unfolding to_worker_of
get_to_worker = do tag ← get_u8; to_worker_of tag

-- The cursor is dropped: bytes behind the message are not looked at.
abbrev pub value_only : {A : Type 0} → Read A → Bytes → Decoded A
value_only m body = elim (m (new body)) [ ok (a, _) ↦ ok a | err e ↦ err e ]

unfoldable pub decode_to_worker : Bytes → Decoded ToWorker
unfolding get_to_worker new
decode_to_worker = value_only get_to_worker

unfoldable pub ending_code : Ending → ℕ
ending_code ok_ending = 0
ending_code error = 1
ending_code load_error = 2
ending_code timeout = 3
ending_code cancelled = 4
ending_code budget = 5
ending_code refused = 6

unfoldable pub ending_from : ℕ → Decoded Ending
ending_from code =
    if code == 0
    then ok ok_ending
    else if code == 1
    then ok error
    else if code == 2
    then ok load_error
    else if code == 3
    then ok timeout
    else if code == 4
    then ok cancelled
    else if code == 5
    then ok budget
    else if code == 6
    then ok refused
    else err (bad_ending code)

abbrev pub lift : {A : Type 0} → Decoded A → Read A
lift (ok a) = pure a
lift (err e) = fail e

unfoldable pub put_logs : List (Bytes × Bytes) → Bytes
put_logs [] = []
put_logs ((level, message) ∷ logs) = put_bytes level ++ (put_bytes message ++ put_logs logs)

unfoldable pub put_error : Option Bytes → Bytes
put_error none = put_u8 0
put_error (some e) = put_u8 1 ++ put_bytes e

unfoldable pub encode_to_server : ToServer → Bytes
unfolding put_logs put_error ending_code
encode_to_server ready = put_u8 0x81
encode_to_server (broken why) = put_u8 0x82 ++ put_bytes why
encode_to_server (finished id ending value why logs) =
    put_u8 0x83
    ++ (put_u64 id
        ++ (put_u8 (ending_code ending)
            ++ (put_data value ++ (put_error why ++ (put_u64 (length logs) ++ put_logs logs)))))

get_error : Read (Option Bytes)
get_error = do flag ← get_u8; if flag == 0 then pure none else (do e ← get_string; pure (some e))

get_logs : ℕ → Read (List (Bytes × Bytes))
get_logs zero = pure []
get_logs (suc n) = do
  level ← get_string
  message ← get_string
  logs ← get_logs n
  pure ((level, message) ∷ logs)

get_done : Read ToServer
unfolding get_error get_logs ending_from
get_done = do
  id ← get_u64
  code ← get_u8
  ending ← lift (ending_from code)
  value ← get_data
  why ← get_error
  n ← get_u64
  logs ← get_logs n
  pure (finished id ending value why logs)

to_server_of : ℕ → Read ToServer
unfolding get_done
to_server_of tag =
    if tag == 0x81
    then pure ready
    else if tag == 0x82
    then (do e ← get_string; pure (broken e))
    else if tag == 0x83
    then get_done
    else fail (bad_worker_tag tag)

get_to_server : Read ToServer
unfolding to_server_of
get_to_server = do tag ← get_u8; to_server_of tag

unfoldable pub decode_to_server : Bytes → Decoded ToServer
unfolding get_to_server new
decode_to_server = value_only get_to_server
