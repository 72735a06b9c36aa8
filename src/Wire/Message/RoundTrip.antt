-- ===== src/Wire/Message/RoundTrip.antt =====
-- Every message is decoded to what was encoded.
use oxigeon.Base.{
  ℕ, suc, ◌≤◌, ◌<◌, true, List, [], ◌∷◌, ◌++◌, Option, none, some, ◌≡◌, sym, ap, ◌∙◌, Bytes, length,
  append-nil,
}
use oxigeon.Base.Utf8.{is_utf8}
use oxigeon.Wire.Cursor.{
  ok, Read, ◌>>=◌, u64_mod, put_u8, put_u64, put_bytes, get_u8, get_u64, get_string, new,
}
use oxigeon.Wire.Reads.{
  Reads, at, Reads-pure, Reads-bind, Reads-map, Reads-u8, Reads-u64, Reads-string,
}
use oxigeon.Wire.Value.{LuaData, put_data, get_data, max_depth}
use oxigeon.Wire.Value.Fits.{Fits, levels}
use oxigeon.Wire.Value.RoundTrip.{Reads-get_data}
use oxigeon.Wire.Message.{
  ComputeSettings, ToWorker, hello, job, cancel, Ending, ok_ending, ToServer, ready, broken,
  finished, encode_to_worker, decode_to_worker, encode_to_server, decode_to_server, value_only,
  to_worker_of, get_to_worker, put_logs, put_error, get_error, get_logs, to_server_of,
  get_to_server, ending_code, ending_from, lift,
}

-- What every `String`, and every value that may cross, meets.
abbrev pub FitsString : Bytes → Type 0
FitsString s = (length s < u64_mod) × (is_utf8 s ≡ true)

abbrev pub FitsValue : LuaData → Type 0
FitsValue d = (levels d ≤ suc max_depth) × Fits d

abbrev pub FitsToWorker : ToWorker → Type 0
FitsToWorker (hello s mudlib game salt) =
    (s.instruction_limit < u64_mod)
    × (s.memory_mb < u64_mod)
    × (s.max_arg_depth < u64_mod)
    × (s.max_arg_nodes < u64_mod)
    × FitsString mudlib
    × FitsString game
    × (salt < u64_mod)
FitsToWorker (job id module_name func args deadline_ms) =
    (id < u64_mod)
    × FitsString module_name
    × FitsString func
    × FitsValue args
    × (deadline_ms < u64_mod)
FitsToWorker (cancel id) = id < u64_mod

Reads-str : (s : Bytes) → FitsString s → Reads get_string (put_bytes s) s
Reads-str s h = Reads-string s h.0 h.1

-- A message that its reader reads is decoded, if its bytes are fewer than 2^64.
decode_of_Reads :
    {A : Type 0} (m : Read A) (s : Bytes) (a : A)
    → length s < u64_mod
    → Reads m s a
    → value_only m s ≡ ok a
unfolding new
decode_of_Reads m s a h p =
    let r : m (at [] s) ≡ ok (a, at s []) =
      ap (λ x. m (at [] x)) (sym (append-nil s)) ∙ p [] [] (rw append-nil h) in
    rw (r, value_only)

-- A message behind its tag.
Reads-behind :
    {A : Type 0} (f : ℕ → Read A) (tag : ℕ) (s : Bytes) (a : A)
    → Reads (f tag) s a
    → Reads (get_u8 >>= f) (put_u8 tag ++ s) a
Reads-behind f tag s a p = Reads-bind get_u8 f (put_u8 tag) s tag a (Reads-u8 tag) p

Reads-hello :
    (s : ComputeSettings) (mudlib game : Bytes) (salt : ℕ)
    → FitsToWorker (hello s mudlib game salt)
    → Reads get_to_worker (encode_to_worker (hello s mudlib game salt)) (hello s mudlib game salt)
unfolding get_to_worker encode_to_worker
Reads-hello s mudlib game salt h = Reads-behind to_worker_of 1 _ _ (
    Reads-bind get_u64 _ (put_u64 s.instruction_limit) _ _ _ (Reads-u64 _ h.0) (
      Reads-bind get_u64 _ (put_u64 s.memory_mb) _ _ _ (Reads-u64 _ h.1) (
        Reads-bind get_u64 _ (put_u64 s.max_arg_depth) _ _ _ (Reads-u64 _ h.2) (
          Reads-bind get_u64 _ (put_u64 s.max_arg_nodes) _ _ _ (Reads-u64 _ h.3) (
            Reads-bind get_string _ (put_bytes mudlib) _ _ _ (Reads-str mudlib h.4) (
              Reads-bind get_string _ (put_bytes game) _ _ _ (Reads-str game h.5) (
                Reads-map get_u64 (hello s mudlib game) (put_u64 salt) salt
                  (Reads-u64 salt h.6))))))))

Reads-job :
    (id : ℕ) (name func : Bytes) (args : LuaData) (ms : ℕ)
    → FitsToWorker (job id name func args ms)
    → Reads get_to_worker (encode_to_worker (job id name func args ms)) (job id name func args ms)
unfolding get_to_worker encode_to_worker
Reads-job id name func args ms h = Reads-behind to_worker_of 2 _ _ (
    Reads-bind get_u64 _ (put_u64 id) _ _ _ (Reads-u64 id h.0) (
      Reads-bind get_string _ (put_bytes name) _ _ _ (Reads-str name h.1) (
        Reads-bind get_string _ (put_bytes func) _ _ _ (Reads-str func h.2) (
          Reads-bind get_data _ (put_data args) _ _ _ (Reads-get_data args h.3.0 h.3.1)
            (Reads-map get_u64 (job id name func args) (put_u64 ms) ms (Reads-u64 ms h.4))))))

Reads-cancel :
    (id : ℕ) → id < u64_mod → Reads get_to_worker (encode_to_worker (cancel id)) (cancel id)
unfolding get_to_worker encode_to_worker
Reads-cancel id h =
    Reads-behind to_worker_of 3 _ _ (Reads-map get_u64 cancel (put_u64 id) id (Reads-u64 id h))

-- The worker decodes each message of the server to the message that was encoded. The numbers have 64
-- bits, the strings are UTF-8, a job's arguments nest no deeper than `MAX_DEPTH`, and the frame has
-- less than 2^64 bytes.
pub decode-encode_to_worker :
    (m : ToWorker)
    → FitsToWorker m
    → length (encode_to_worker m) < u64_mod
    → decode_to_worker (encode_to_worker m) ≡ ok m
unfolding decode_to_worker
decode-encode_to_worker (hello s mudlib game salt) h l =
    decode_of_Reads get_to_worker _ _ l (Reads-hello s mudlib game salt h)
decode-encode_to_worker (job id name func args ms) h l =
    decode_of_Reads get_to_worker _ _ l (Reads-job id name func args ms h)
decode-encode_to_worker (cancel id) h l = decode_of_Reads get_to_worker _ _ l (Reads-cancel id h)

abbrev pub FitsLogs : List (Bytes × Bytes) → Type 0
FitsLogs [] = Unit {0}
FitsLogs ((level, message) ∷ logs) = FitsString level × FitsString message × FitsLogs logs

abbrev pub FitsError : Option Bytes → Type 0
FitsError none = Unit {0}
FitsError (some e) = FitsString e

abbrev pub FitsToServer : ToServer → Type 0
FitsToServer ready = Unit {0}
FitsToServer (broken e) = FitsString e
FitsToServer (finished id _ value e logs) =
    (id < u64_mod) × FitsValue value × FitsError e × (length logs < u64_mod) × FitsLogs logs

Reads-error : (e : Option Bytes) → FitsError e → Reads get_error (put_error e) e
unfolding get_error put_error put_u8
Reads-error none h = Reads-behind _ 0 [] none (Reads-pure none)
Reads-error (some e) h =
    Reads-behind _ 1 _ _ (Reads-map get_string some (put_bytes e) e (Reads-str e h))

Reads-logs :
    (logs : List (Bytes × Bytes))
    → FitsLogs logs
    → Reads (get_logs (length logs)) (put_logs logs) logs
unfolding get_logs put_logs
Reads-logs [] h = Reads-pure []
Reads-logs ((level, message) ∷ logs) h =
    Reads-bind get_string _ (put_bytes level) _ _ _ (Reads-str level h.0) (
      Reads-bind get_string _ (put_bytes message) _ _ _ (Reads-str message h.1) (
        Reads-map (get_logs (length logs)) (◌∷◌ (level, message)) (put_logs logs) logs
          (Reads-logs logs h.2)))

Reads-ending : (e : Ending) → Reads (lift (ending_from (ending_code e))) [] e
unfolding ending_from ending_code
Reads-ending ok_ending = Reads-pure ok_ending
Reads-ending e = Reads-pure e

Reads-finished :
    (id : ℕ) (ending : Ending) (value : LuaData) (e : Option Bytes) (logs : List (Bytes × Bytes))
    → FitsToServer (finished id ending value e logs)
    → Reads get_to_server
        (encode_to_server (finished id ending value e logs))
        (finished id ending value e logs)
unfolding get_to_server encode_to_server
Reads-finished id ending value e logs h = Reads-behind to_server_of 0x83 _ _ (
    Reads-bind get_u64 _ (put_u64 id) _ _ _ (Reads-u64 id h.0) (
      Reads-behind _ (ending_code ending) _ _ (
        Reads-bind (lift (ending_from (ending_code ending))) _ [] _ ending _ (Reads-ending ending) (
          Reads-bind get_data _ (put_data value) _ _ _ (Reads-get_data value h.1.0 h.1.1) (
            Reads-bind get_error _ (put_error e) _ _ _ (Reads-error e h.2) (
              Reads-bind get_u64 _ (put_u64 (length logs)) _ _ _ (Reads-u64 _ h.3) (
                Reads-map (get_logs (length logs)) (finished id ending value e) (put_logs logs) logs
                  (Reads-logs logs h.4))))))))

Reads-ready : Reads get_to_server (encode_to_server ready) ready
unfolding get_to_server encode_to_server put_u8
Reads-ready = Reads-behind to_server_of 0x81 [] ready (Reads-pure ready)

Reads-broken :
    (e : Bytes) → FitsString e → Reads get_to_server (encode_to_server (broken e)) (broken e)
unfolding get_to_server encode_to_server
Reads-broken e h =
    Reads-behind to_server_of 0x82 _ _ (Reads-map get_string broken (put_bytes e) e (Reads-str e h))

-- The server decodes each message of a worker to the message that was encoded. The numbers have 64
-- bits, the strings are UTF-8, a result nests no deeper than `MAX_DEPTH`, and the frame has less
-- than 2^64 bytes.
pub decode-encode_to_server :
    (m : ToServer)
    → FitsToServer m
    → length (encode_to_server m) < u64_mod
    → decode_to_server (encode_to_server m) ≡ ok m
unfolding decode_to_server
decode-encode_to_server ready h l = decode_of_Reads get_to_server _ _ l Reads-ready
decode-encode_to_server (broken e) h l = decode_of_Reads get_to_server _ _ l (Reads-broken e h)
decode-encode_to_server (finished id ending value e logs) h l =
    decode_of_Reads get_to_server _ _ l (Reads-finished id ending value e logs h)
