-- ===== src/Telnet/Parser/RoundTrip.antt =====
-- What codec.rs writes, parser.rs reads back; and the one option that it does not read back.
use oxigeon.Base.{
  ℕ, [], ◌∷◌, ◌++◌, append-nil, append_assoc, ◌≡◌, ◌≢◌, refl, arith, ◌==◌, Bytes, Bool-cases, inl,
  inr, All,
}
use oxigeon.Telnet.Constants.{iac, se}
use oxigeon.Telnet.Codec.{encode_text, decode_line, escape_iac, encode_subnegotiation}
use oxigeon.Telnet.Codec.RoundTrip.{NoCrNul, decode_line-encode_text}
use oxigeon.Telnet.Parser.{
  text, subnegotiation, normal, in_subnegotiation, TelnetParser, flush_data, feed_in, emit,
  feed_each, feed_bytes, new,
}

abbrev cleared : TelnetParser → TelnetParser
cleared p = record p { state = normal; sub_buffer = [] }

-- The payload of an open subnegotiation of a known option, to its end.
feed_each-escape_iac :
    (d : Bytes) (p : TelnetParser) (o : ℕ)
    → p.state ≡ in_subnegotiation o
    → o ≢ 0
    → feed_each p (escape_iac d ++ iac ∷ se ∷ [])
      ≡ (cleared p, subnegotiation o (p.sub_buffer ++ d) ∷ [])
unfolding feed_each feed_in escape_iac
feed_each-escape_iac [] p o s h = ground (arith, append-nil p.sub_buffer)
feed_each-escape_iac (b ∷ d) p o s h = elim (Bool-cases (b == iac)) [
  | inl e ↦ ground (
    arith,
    feed_each-escape_iac d (record p { sub_buffer = p.sub_buffer ++ 255 ∷ [] }) o s h,
    append_assoc p.sub_buffer (255 ∷ []) d,
  )
  | inr e ↦ ground (
    arith,
    feed_each-escape_iac d (record p { sub_buffer = p.sub_buffer ++ b ∷ [] }) o s h,
    append_assoc p.sub_buffer (b ∷ []) d,
  )
]

-- Any subnegotiation but that of option 0 is read back whole, whatever bytes its payload holds: a
-- parser between two commands gives the text it held and then the subnegotiation, and is left
-- empty, between two commands.
pub feed_each-encode_subnegotiation :
    (p : TelnetParser) (o : ℕ) (d : Bytes)
    → p.state ≡ normal
    → o ≢ 0
    → feed_each p (encode_subnegotiation o d)
      ≡ (new, emit (flush_data p).1 (subnegotiation o d ∷ []))
unfolding feed_each feed_in encode_subnegotiation new
feed_each-encode_subnegotiation p o d s h = ground (
  arith,
  feed_each-escape_iac d (record { state = in_subnegotiation o; data_buffer = []; sub_buffer = [] })
      o refl h,
)

-- A parser between two commands misreads a subnegotiation of option 0: the first byte of its
-- payload, if it is neither 0 nor IAC, is taken for the option, and the rest of the payload is
-- reported under that.
pub feed_each-encode_subnegotiation_zero :
    (p : TelnetParser) (b : ℕ) (d : Bytes)
    → p.state ≡ normal
    → b ≢ 0
    → b ≢ iac
    → feed_each p (encode_subnegotiation 0 (b ∷ d))
      ≡ (new, emit (flush_data p).1 (subnegotiation b d ∷ []))
unfolding feed_each feed_in encode_subnegotiation new
feed_each-encode_subnegotiation_zero p b d s h k = ground (
  arith,
  feed_each-escape_iac d (record { state = in_subnegotiation b; data_buffer = []; sub_buffer = [] })
      b refl h,
)

-- Bytes without IAC collect in the buffer.
feed_each-All :
    (bs : Bytes) (p : TelnetParser)
    → p.state ≡ normal
    → All (λ b. b ≢ iac) bs
    → feed_each p bs ≡ (record p { data_buffer = p.data_buffer ++ bs }, [])
unfolding feed_each feed_in
feed_each-All [] p s a = ground (arith, append-nil p.data_buffer)
feed_each-All (b ∷ bs) p s a = ground (
  arith,
  feed_each-All bs (record p { data_buffer = p.data_buffer ++ b ∷ [] }) s a.1,
  append_assoc p.data_buffer (b ∷ []) bs,
)

encode_text-All : (t : Bytes) → All (λ b. b ≢ iac) t → All (λ b. b ≢ iac) (encode_text t)
unfolding encode_text
encode_text-All [] a = tt
encode_text-All (b ∷ t) a = ground (arith, encode_text-All t a.1)

feed_bytes-All :
    (bs : Bytes) → bs ≢ [] → All (λ b. b ≢ iac) bs → feed_bytes new bs ≡ (new, text bs ∷ [])
unfolding feed_bytes new
feed_bytes-All [] ne a = absurd (ne refl)
feed_bytes-All (b ∷ bs) ne a = ground (arith, feed_each-All (b ∷ bs) new refl a)

encode_text-ne-nil : (t : Bytes) → t ≢ [] → encode_text t ≢ []
unfolding encode_text
encode_text-ne-nil [] ne = ne
encode_text-ne-nil (b ∷ t) ne = ground arith

-- Text that is sent through `encode_text` and read by a new parser is one data event, and
-- `decode_line` gives the text back. The text is not empty, has no byte 255, as no UTF-8 has, and
-- has no NUL behind a CR.
pub feed_bytes-encode_text :
    (t : Bytes)
    → t ≢ []
    → All (λ b. b ≢ iac) t
    → NoCrNul t
    → (feed_bytes new (encode_text t) ≡ (new, text (encode_text t) ∷ []))
      × (decode_line (encode_text t) ≡ t)
feed_bytes-encode_text t ne a n = (
  feed_bytes-All (encode_text t) (encode_text-ne-nil t ne) (encode_text-All t a),
  decode_line-encode_text t a n,
)
