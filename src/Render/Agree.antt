-- ===== src/Render/Agree.antt =====
-- src/core/render/mod.rs: the two renderings of a line agree, and a client obeys no tag but the driver's.
use oxigeon.Base.{List, [], ◌∷◌, ◌++◌, none, some, All-append, refl, arith}
use oxigeon.Base.Utf8.{ascii}
use oxigeon.Telnet.Mxp.{Text}
use oxigeon.Render.{
  Node, Nodes, none_left, node, text, group, break, expire, broken, write_mxp_link, write_mxp,
  write_each, write_text, text_each,
}
use oxigeon.Render.Reads.{
  IsPlain, hidden, escape-hidden, Reads-nil, Shows, Shows-then, Reads-tag, Opens, Reads-broken,
  NoEnd,
}
use oxigeon.Render.Links.{
  IsInlineOption, IsInlineAction, IsInline-IsPlain, link_tags, var_tags, Shows-link, Shows-var,
  Reads-other, hidden-NoEnd,
}

-- The tags of a line, which are those of its actions, in order.
unfoldable mutual
  pub node_tags : Node → List Text
  node_tags (text t) = []
  node_tags break = ascii "BR" ∷ []
  node_tags (expire none) = ascii "EXPIRE" ∷ []
  node_tags (expire (some name)) = (ascii "EXPIRE " ++ hidden name) ∷ []
  node_tags (group a children) = var_tags a.var (link_tags a (each_tags children))

  pub each_tags : Nodes → List Text
  each_tags none_left = []
  each_tags (node n ns) = node_tags n ++ each_tags ns

-- No text of the line has an ESC in it, and none that stands in a tag a newline.
unfoldable mutual
  pub IsPlainNode : Node → Type 0
  IsPlainNode (text t) = IsPlain t
  IsPlainNode break = Unit
  IsPlainNode (expire name) = IsInlineOption name
  IsPlainNode (group a children) = IsInlineAction a × IsPlainNodes children

  pub IsPlainNodes : Nodes → Type 0
  IsPlainNodes none_left = Unit
  IsPlainNodes (node n ns) = IsPlainNode n × IsPlainNodes ns

module _ (prefix : Text) (opens : Opens prefix) where
  mutual
    unfolding write_mxp write_text node_tags IsPlainNode

    write_mxp-Shows :
        (n : Node)
        → IsPlainNode n
        → Shows (write_mxp prefix n) (record { shown = write_text n; tags = node_tags n })
    write_mxp-Shows (text t) p =
        (broken prefix (hidden t), rw (escape-hidden t p) refl, Reads-broken prefix t opens p)
    write_mxp-Shows break p = (ascii "<BR>", refl, Reads-tag (ascii "BR") (ground arith))
    write_mxp-Shows (expire none) p = (
      ascii "<EXPIRE>",
      refl,
      Reads-other b'E' (ascii "XPIRE") (λ e. absurd (omega arith)) (ground arith),
    )
    write_mxp-Shows (expire (some name)) p = (
      b'<' ∷ ((ascii "EXPIRE " ++ hidden name) ++ b'>' ∷ []),
      rw (escape-hidden name (IsInline-IsPlain name p)) refl,
      Reads-other b'E' (ascii "XPIRE " ++ hidden name) (λ e. absurd (omega arith))
          (All-append NoEnd (ascii "EXPIRE ") (hidden name) (ground arith) (hidden-NoEnd name p)),
    )
    write_mxp-Shows (group a children) (p, ps) =
        Shows-var a.var (write_mxp_link a (write_each prefix children)) (text_each children) _
          p.var_inline
          (Shows-link a (write_each prefix children) (text_each children) (each_tags children) p
            (write_each-Shows children ps))

    write_each-Shows :
        (ns : Nodes)
        → IsPlainNodes ns
        → Shows (write_each prefix ns) (record { shown = text_each ns; tags = each_tags ns })
    write_each-Shows none_left p = ([], refl, Reads-nil)
    write_each-Shows (node n ns) (p, ps) =
        Shows-then (write_mxp prefix n) (write_each prefix ns)
          (record { shown = write_text n; tags = node_tags n })
          (record { shown = text_each ns; tags = each_tags ns }) (write_mxp-Shows n p)
          (write_each-Shows ns ps)
