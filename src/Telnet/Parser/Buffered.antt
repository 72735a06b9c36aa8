-- ===== src/Telnet/Parser/Buffered.antt =====
-- The buffered parser of parser.rs does what the machine of Spec does.
use mathlib.Core.List.{map-append}
use oxigeon.Base.{
  ℕ, List, [], ◌∷◌, ◌++◌, append-nil, append_assoc, Option, none, some, ◌≡◌, refl, sym, ap, ◌∙◌,
  arith, Bytes,
}
use oxigeon.Telnet.Parser.Spec.{
  Item, byte_in, Place, spec_step, spec_run, items, item_of, place, pending,
}
use oxigeon.Telnet.Parser.{
  TelnetEvent, ParserState, normal, in_iac, TelnetParser, flush_data, feed_in, feed, emit,
  feed_each, feed_bytes,
}

-- Text waits in the buffer only between two commands.
abbrev pub IsFlushed : ParserState → Bytes → Type 0
IsFlushed normal buffer = Unit {0}
IsFlushed _ buffer = buffer ≡ []

abbrev pub IsValid : TelnetParser → Type 0
IsValid p = IsFlushed p.state p.data_buffer

abbrev said : Option TelnetEvent → List Item
said e = items (emit e [])

-- One byte: what the event says, and what is then in the buffer, is what was there and what the
-- machine gives.
feed_in-spec_step :
    (s : ParserState) (p : TelnetParser) (b : ℕ)
    → p.state ≡ s
    → IsFlushed s p.data_buffer
    → IsValid (feed_in s p b).0
      × (place (feed_in s p b).0 ≡ (spec_step s (place p) b).0)
      × (said (feed_in s p b).1 ++ pending (feed_in s p b).0
          ≡ pending p ++ (spec_step s (place p) b).1)
unfolding feed_in spec_step
feed_in-spec_step normal p b e v =
    ground (arith, map-append byte_in p.data_buffer (b ∷ []), append-nil (pending p))
feed_in-spec_step in_iac p b e v = ground arith
feed_in-spec_step _ p b e v = ground arith

items-append : (xs ys : List TelnetEvent) → items (xs ++ ys) ≡ items xs ++ items ys
items-append [] ys = refl
items-append (x ∷ xs) ys =
    rw (items-append xs ys) (sym (append_assoc (item_of x) (items xs) (items ys)))

items-emit :
    (e : Option TelnetEvent) (es : List TelnetEvent) → items (emit e es) ≡ said e ++ items es
items-emit none es = refl
items-emit (some e) es = rw append-nil

-- What a run over some bytes shows: the machine's place, and all that it gave.
record Agrees (p r : TelnetParser) (events : List TelnetEvent) (bs : Bytes) : Type 0 where
  valid : IsValid r
  placed : place r ≡ (spec_run (place p) bs).0
  told : items events ++ pending r ≡ pending p ++ (spec_run (place p) bs).1

feed_each-Agrees :
    (bs : Bytes) (p : TelnetParser) → IsValid p → Agrees p (feed_each p bs).0 (feed_each p bs).1 bs
unfolding feed_each spec_run
feed_each-Agrees [] p v = record { valid = v; placed = refl; told = sym (append-nil (pending p)) }
feed_each-Agrees (b ∷ bs) p v =
    let (v', at, out) = feed_in-spec_step p.state p b refl v in
    let rest = feed_each-Agrees bs (feed p b).0 v' in
    record {
      valid = rest.valid;
      placed = rest.placed ∙ ap (λ s. (spec_run s bs).0) at;
      told = rw (items-emit, append_assoc, rest.told, ← append_assoc, out, append_assoc, at);
    }

flush_data-said :
    (r : TelnetParser)
    → (said (flush_data r).1 ≡ pending r)
      × (place (flush_data r).0 ≡ place r)
      × ((flush_data r).0.data_buffer ≡ [])
unfolding flush_data
flush_data-said r = ground (arith, append-nil (pending r))

-- `feed_bytes` is the machine: its events are what was in the buffer and what the machine gives,
-- it ends where the machine ends, and it leaves no text in the buffer. The parser it starts from
-- holds text only between two commands.
pub feed_bytes-spec_run :
    (p : TelnetParser) (bs : Bytes)
    → IsValid p
    → (items (feed_bytes p bs).1 ≡ pending p ++ (spec_run (place p) bs).1)
      × (place (feed_bytes p bs).0 ≡ (spec_run (place p) bs).0)
      × ((feed_bytes p bs).0.data_buffer ≡ [])
unfolding feed_bytes
feed_bytes-spec_run p bs v =
    let a = feed_each-Agrees bs p v in
    let f = flush_data-said (feed_each p bs).0 in
    (rw (items-append, f.0, a.told), f.1 ∙ a.placed, f.2)

-- The machine over two chunks.
pub spec_run-append :
    (xs ys : Bytes) (s : Place)
    → ((spec_run s (xs ++ ys)).0 ≡ (spec_run (spec_run s xs).0 ys).0)
      × ((spec_run s (xs ++ ys)).1 ≡ (spec_run s xs).1 ++ (spec_run (spec_run s xs).0 ys).1)
unfolding spec_run
spec_run-append [] ys s = (refl, refl)
spec_run-append (b ∷ xs) ys s =
    let ih = spec_run-append xs ys (spec_step s.at s b).0 in (ih.0, rw (ih.1, append_assoc))

flushed-IsValid : (p : TelnetParser) → p.data_buffer ≡ [] → IsValid p
flushed-IsValid p e = go p.state
  where
    go : (s : ParserState) → IsFlushed s p.data_buffer
    go normal = tt
    go in_iac = e
    go _ = e

parser_eq : (p q : TelnetParser) → place p ≡ place q → p.data_buffer ≡ q.data_buffer → p ≡ q
parser_eq p q e f = λ i. record { state = (e i).at; data_buffer = f i; sub_buffer = (e i).payload }

-- How the bytes are cut into reads does not matter: two calls of `feed_bytes` leave the parser
-- where one call over all the bytes leaves it, and tell the same text bytes and events in the same
-- order. The parser holds text only between two commands.
pub feed_bytes-append :
    (p : TelnetParser) (xs ys : Bytes)
    → IsValid p
    → ((feed_bytes (feed_bytes p xs).0 ys).0 ≡ (feed_bytes p (xs ++ ys)).0)
      × (items (feed_bytes p xs).1 ++ items (feed_bytes (feed_bytes p xs).0 ys).1
          ≡ items (feed_bytes p (xs ++ ys)).1)
feed_bytes-append p xs ys v =
    let q = (feed_bytes p xs).0 in
    let a = feed_bytes-spec_run p xs v in
    let b = feed_bytes-spec_run q ys (flushed-IsValid q a.2) in
    let c = feed_bytes-spec_run p (xs ++ ys) v in
    let d = spec_run-append xs ys (place p) in
    (
      parser_eq _ _ (b.1 ∙ ap (λ s. (spec_run s ys).0) a.1 ∙ sym (d.0) ∙ sym (c.1))
          (b.2 ∙ sym (c.2)),
      rw (a.0, b.0, a.2, a.1, c.0, d.1, append_assoc),
    )
