-- ===== src/Render/Links.antt =====
-- src/core/render/mod.rs: what a client reads of the tags of a link and of a variable.
use oxigeon.Base.{
  ℕ, Bool, true, false, not, ◌&&◌, List, [], ◌∷◌, ◌++◌, Option, none, some, if◌then◌else◌, All,
  All-append, ◌≡◌, ◌≢◌, refl, sym, ap, subst, arith, append_assoc, append-nil, Bool-cases, inl, inr,
}
use mathlib.Core.List.{flat_map}
use oxigeon.Base.Utf8.{ascii}
use oxigeon.Telnet.Constants.{esc, lf}
use oxigeon.Telnet.Mxp.{Text, entity}
use oxigeon.Telnet.Mxp.State.{equals}
use oxigeon.Render.{
  Action, is_actionable, is_some, ◌&◌, lit, join_bar, tag_name, target, prompt_of, link_tag, hints,
  expiry, write_mxp_link, var_start, var_end,
}
use oxigeon.Render.Client.{Seen, obeyed}
use oxigeon.Render.Reads.{
  IsPlain, hidden, escape-hidden, Reads, Reads-append, Shows, Reads-tag, NoEnd,
}

-- What may stand in a tag: neither an ESC nor a newline.
abbrev IsInner : ℕ → Type 0
IsInner c = (c ≢ esc) × (c ≢ lf)

abbrev pub IsInline : Text → Type 0
IsInline = All IsInner

pub IsInline-IsPlain : (s : Text) → IsInline s → IsPlain s
IsInline-IsPlain [] h = tt
IsInline-IsPlain (c ∷ cs) (h, hs) = (h.0, IsInline-IsPlain cs hs)

entity-NoEnd : (c : ℕ) → c ≢ lf → All NoEnd (entity c)
unfolding entity
entity-NoEnd c h = ground arith

pub hidden-NoEnd : (s : Text) → IsInline s → All NoEnd (hidden s)
unfolding flat_map
hidden-NoEnd [] h = tt
hidden-NoEnd (c ∷ cs) (h, hs) =
    All-append NoEnd (entity c) (hidden cs) (entity-NoEnd c h.1) (hidden-NoEnd cs hs)

join_bar-IsInline : (ss : List Text) → All IsInline ss → IsInline (join_bar ss)
unfolding join_bar
join_bar-IsInline [] h = tt
join_bar-IsInline (s ∷ []) h = h.0
join_bar-IsInline (s ∷ t ∷ ts) (h, hs) =
    All-append IsInner s (b'|' ∷ join_bar (t ∷ ts)) h
      (((λ e. absurd (omega arith)), (λ e. absurd (omega arith))), join_bar-IsInline (t ∷ ts) hs)

abbrev pub IsInlineOption : Option Text → Type 0
IsInlineOption none = Unit {0}
IsInlineOption (some s) = IsInline s

pub record IsInlineAction (a : Action) : Type 0 where
  pub send_inline : All IsInline a.send
  pub hint_inline : All IsInline a.hint
  pub href_inline : IsInlineOption a.href
  pub expire_inline : IsInlineOption a.expire_name
  pub var_inline : IsInlineOption a.var

abbrev hint_part : List Text → Text
hint_part [] = []
hint_part (h ∷ hs) = ascii " hint=\"" ++ (hidden (join_bar (h ∷ hs)) ++ ascii "\"")

abbrev expire_part : Option Text → Text
expire_part none = []
expire_part (some name) = ascii " expire=\"" ++ (hidden name ++ ascii "\"")

-- The tag of a link.
abbrev pub link_name : Action → Text
link_name a =
    (tag_name a.href ++ ascii " href=\"")
    ++ (hidden (target a)
        ++ (ascii "\"" ++ (hint_part a.hint ++ (expire_part a.expire_name ++ prompt_of a))))

target-IsInline : (a : Action) → IsInlineAction a → IsInline (target a)
unfolding target
target-IsInline a h = go a.href h.href_inline
  where
    go :
        (o : Option Text)
        → IsInlineOption o
        → IsInline (elim o [ none ↦ join_bar a.send | some url ↦ url ])
    go none p = join_bar-IsInline a.send h.send_inline
    go (some url) p = p

hints-part : (hs : List Text) → All IsInline hs → hints hs ≡ some (hint_part hs)
hints-part [] h = refl
hints-part (x ∷ xs) h =
    rw (escape-hidden (join_bar (x ∷ xs)) (IsInline-IsPlain _ (join_bar-IsInline (x ∷ xs) h))) refl

expiry-part : (o : Option Text) → IsInlineOption o → expiry o ≡ some (expire_part o)
expiry-part none h = refl
expiry-part (some name) h = rw (escape-hidden name (IsInline-IsPlain name h)) refl

link_tag-name : (a : Action) → IsInlineAction a → link_tag a ≡ some (link_name a)
unfolding link_tag
link_tag-name a h =
    rw
      (
        escape-hidden (target a) (IsInline-IsPlain (target a) (target-IsInline a h)),
        hints-part a.hint h.hint_inline,
        expiry-part a.expire_name h.expire_inline,
      )
      refl

abbrev pub closing : Action → Text
closing a = b'/' ∷ tag_name a.href

abbrev pub tag_seen : Text → Seen
tag_seen name = record { shown = []; tags = name ∷ [] }

-- A tag that is no line break is not shown.
obeyed-tag_seen : (c : ℕ) (cs : Text) → c ≢ b'B' → obeyed (c ∷ cs) ≡ tag_seen (c ∷ cs)
obeyed-tag_seen c cs h =
    let no_break : equals (c ∷ cs) (ascii "BR") ≡ false = ground arith in
    let seen : Bool → Seen =
      λ b. record { shown = if b then lf ∷ [] else []; tags = (c ∷ cs) ∷ [] } in
    ap seen no_break

pub Reads-other :
    (c : ℕ) (cs : Text)
    → c ≢ b'B'
    → All NoEnd (c ∷ cs)
    → Reads (b'<' ∷ ((c ∷ cs) ++ b'>' ∷ [])) (tag_seen (c ∷ cs))
Reads-other c cs h e =
    subst (Reads (b'<' ∷ ((c ∷ cs) ++ b'>' ∷ []))) (obeyed-tag_seen c cs h) (Reads-tag (c ∷ cs) e)

hint_part-NoEnd : (hs : List Text) → All IsInline hs → All NoEnd (hint_part hs)
hint_part-NoEnd [] p = tt
hint_part-NoEnd (h ∷ hs) p = All-append NoEnd (ascii " hint=\"") _ (ground arith) (
    All-append NoEnd (hidden (join_bar (h ∷ hs))) (ascii "\"")
      (hidden-NoEnd _ (join_bar-IsInline (h ∷ hs) p)) (ground arith))

expire_part-NoEnd : (o : Option Text) → IsInlineOption o → All NoEnd (expire_part o)
expire_part-NoEnd none p = tt
expire_part-NoEnd (some name) p =
    All-append NoEnd (ascii " expire=\"") _ (ground arith)
      (All-append NoEnd (hidden name) (ascii "\"") (hidden-NoEnd name p) (ground arith))

prompt-NoEnd : (b : Bool) → All NoEnd (if b then ascii " PROMPT" else [])
prompt-NoEnd true = ground arith
prompt-NoEnd false = tt

-- What stands behind the first quotation mark of a link's tag.
abbrev link_rest : Action → Text
link_rest a =
    hidden (target a)
    ++ (ascii "\"" ++ (hint_part a.hint ++ (expire_part a.expire_name ++ prompt_of a)))

link_rest-NoEnd : (a : Action) → IsInlineAction a → All NoEnd (link_rest a)
link_rest-NoEnd a p =
    All-append NoEnd (hidden (target a)) _ (hidden-NoEnd (target a) (target-IsInline a p)) (
      All-append NoEnd (ascii "\"") _ (ground arith) (
        All-append NoEnd (hint_part a.hint) _ (hint_part-NoEnd a.hint p.hint_inline) (
          All-append NoEnd (expire_part a.expire_name) _
            (expire_part-NoEnd a.expire_name p.expire_inline)
            (prompt-NoEnd (a.prompt && not (is_some a.href))))))

Reads-start :
    (o : Option Text) (rest : Text)
    → All NoEnd rest
    → Reads
        (b'<' ∷ (((tag_name o ++ ascii " href=\"") ++ rest) ++ b'>' ∷ []))
        (tag_seen ((tag_name o ++ ascii " href=\"") ++ rest))
Reads-start none rest h =
    Reads-other b'S' (ascii "END href=\"" ++ rest) (λ e. absurd (omega arith))
      (All-append NoEnd (ascii "SEND href=\"") rest (ground arith) h)
Reads-start (some url) rest h =
    Reads-other b'A' (ascii " href=\"" ++ rest) (λ e. absurd (omega arith))
      (All-append NoEnd (ascii "A href=\"") rest (ground arith) h)

Reads-link :
    (a : Action)
    → IsInlineAction a
    → Reads (b'<' ∷ (link_name a ++ b'>' ∷ [])) (tag_seen (link_name a))
Reads-link a p = Reads-start a.href (link_rest a) (link_rest-NoEnd a p)

Reads-closing : (a : Action) → Reads (b'<' ∷ (closing a ++ b'>' ∷ [])) (tag_seen (closing a))
Reads-closing a =
    Reads-other b'/' (tag_name a.href) (λ e. absurd (omega arith)) (tag_name-NoEnd a.href)
  where
    tag_name-NoEnd : (o : Option Text) → All NoEnd (b'/' ∷ tag_name o)
    tag_name-NoEnd none = ground arith
    tag_name-NoEnd (some url) = ground arith

Reads-around :
    (v w u : Text) (name last t : Text) (tags : List Text)
    → Reads v (tag_seen name)
    → Reads w (record { shown = t; tags = tags })
    → Reads u (tag_seen last)
    → Reads (v ++ (w ++ u)) (record { shown = t; tags = name ∷ (tags ++ last ∷ []) })
Reads-around v w u name last t tags hv hw hu =
    let seen : Text → Seen = λ x. record { shown = x; tags = name ∷ (tags ++ last ∷ []) } in
    subst (Reads (v ++ (w ++ u))) (ap seen (append-nil t)) (
      Reads-append v (w ++ u) (tag_seen name) _ hv
        (Reads-append w u (record { shown = t; tags = tags }) (tag_seen last) hw hu))

abbrev pub link_tags : Action → List Text → List Text
unfolding is_actionable
link_tags a inner = if is_actionable a then link_name a ∷ (inner ++ closing a ∷ []) else inner

abbrev pub var_tags : Option Text → List Text → List Text
var_tags none inner = inner
var_tags (some name) inner = (ascii "VAR " ++ hidden name) ∷ (inner ++ ascii "/VAR" ∷ [])

pub Shows-link :
    (a : Action) (children : Option Text) (t : Text) (tags : List Text)
    → IsInlineAction a
    → Shows children (record { shown = t; tags = tags })
    → Shows (write_mxp_link a children) (record { shown = t; tags = link_tags a tags })
unfolding write_mxp_link
Shows-link a children t tags p (w, e, h) = elim (Bool-cases (is_actionable a)) [
  | inr bare ↦ rw bare (w, e, h)
  | inl yes_link ↦ rw yes_link (
    b'<' ∷ (link_name a ++ b'>' ∷ (w ++ (b'<' ∷ (closing a ++ b'>' ∷ [])))),
    rw (link_tag-name a p, e) refl,
    subst
        (λ x.
          Reads (b'<' ∷ x) (record { shown = t; tags = link_name a ∷ (tags ++ closing a ∷ []) }))
        (append_assoc (link_name a) (b'>' ∷ []) _)
        (Reads-around (b'<' ∷ (link_name a ++ b'>' ∷ [])) w (b'<' ∷ (closing a ++ b'>' ∷ []))
          (link_name a) (closing a) t tags (Reads-link a p) h (Reads-closing a)),
  )
]

pub Shows-var :
    (o : Option Text) (children : Option Text) (t : Text) (tags : List Text)
    → IsInlineOption o
    → Shows children (record { shown = t; tags = tags })
    → Shows
        (var_start o & (children & lit (var_end o)))
        (record { shown = t; tags = var_tags o tags })
Shows-var none children t tags p (w, e, h) = (
  w ++ [],
  rw e refl,
  subst (λ x. Reads x (record { shown = t; tags = tags })) (sym (append-nil w)) h,
)
Shows-var (some name) children t tags p (w, e, h) =
    let opening = b'<' ∷ ((ascii "VAR " ++ hidden name) ++ b'>' ∷ []) in
    (
      opening ++ (w ++ ascii "</VAR>"),
      rw (escape-hidden name (IsInline-IsPlain name p), e) refl,
      Reads-around opening w (ascii "</VAR>") (ascii "VAR " ++ hidden name) (ascii "/VAR") t tags
          (Reads-other b'V' (ascii "AR " ++ hidden name) (λ x. absurd (omega arith))
            (All-append NoEnd (ascii "VAR ") (hidden name) (ground arith) (hidden-NoEnd name p)))
          h (Reads-other b'/' (ascii "VAR") (λ x. absurd (omega arith)) (ground arith)),
    )
