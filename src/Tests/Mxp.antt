-- ===== src/Tests/Mxp.antt =====
-- Tests and witnesses for src/core/network/telnet/mxp.rs and relay.rs.
use oxigeon.Base.{true, List, [], ◌∷◌, ◌++◌, none, some, ◌≡◌, refl}
use oxigeon.Base.Utf8.{ascii}
use oxigeon.Telnet.Constants.{esc, do_verb, dont, opt_mxp}
use oxigeon.Telnet.Mxp.{Text, strip_line_modes, escape}
use oxigeon.Telnet.Mxp.Scan.{Clean}
use oxigeon.Telnet.Mxp.Guard.{Anything, strip_line_modes-idempotent}
use oxigeon.Telnet.Mxp.Gaps.{strip_line_modes_doubled}
use oxigeon.Telnet.Mxp.State.{line_tag}
use oxigeon.Telnet.Mxp.Reply.{version, supports, parse_reply}
use oxigeon.Telnet.Relay.Agree.{opened, negotiate_all, mxp-Agrees}

-- A red text, then a tag.
abbrev forged : Text
forged = esc ∷ ascii "[31mhi" ++ esc ∷ ascii "[1z<send>"

abbrev harmless : Text
harmless = esc ∷ ascii "[31mhi<send>"

forged_stripped : strip_line_modes forged ≡ some harmless
unfolding strip_line_modes
forged_stripped = refl

escaped : escape (ascii "a<b>\"&") ≡ some (ascii "a&lt;b&gt;&quot;&amp;")
unfolding escape
escaped = refl

locked_tag : line_tag 7 ≡ esc ∷ ascii "[7z"
unfolding line_tag
locked_tag = refl

strip_line_modes-idempotent_example :
    Clean Anything harmless × (strip_line_modes harmless ≡ some harmless)
unfolding strip_line_modes
strip_line_modes-idempotent_example = strip_line_modes-idempotent forged harmless refl

abbrev red : Text
red = esc ∷ ascii "[31m"

strip_line_modes_doubled_example :
    strip_line_modes (esc ∷ esc ∷ ascii "[1z<send>") ≡ some (esc ∷ esc ∷ ascii "[1z<send>")
strip_line_modes_doubled_example = strip_line_modes_doubled (ascii "[1z<send>") refl

abbrev supported : List Text
supported = ascii "+b" ∷ ascii "+i" ∷ []

mxp-Agrees_example :
    (negotiate_all []
      ((do_verb, opt_mxp) ∷ (dont, opt_mxp) ∷ [])
      (opened true)).capabilities.mxp_supported
    ≡ (negotiate_all [] ((do_verb, opt_mxp) ∷ (dont, opt_mxp) ∷ []) (opened true)).mxp.enabled
mxp-Agrees_example = mxp-Agrees [] true ((do_verb, opt_mxp) ∷ (dont, opt_mxp) ∷ [])

version_reply :
    parse_reply (esc ∷ ascii "[1z<VERSION MXP=0.4 CLIENT=\"my mud\" VERSION='6'>")
    ≡ some (
        some (
          version (
            (ascii "MXP", ascii "0.4")
            ∷ (ascii "CLIENT", ascii "my mud")
            ∷ (ascii "VERSION", ascii "6")
            ∷ [])))
unfolding parse_reply
version_reply = refl

no_reply : parse_reply (ascii "look at <sword>") ≡ some none
unfolding parse_reply
no_reply = refl

supports_reply :
    parse_reply (ascii " <supports +b x -image>")
    ≡ some (some (supports (ascii "+b" ∷ ascii "-image" ∷ [])))
unfolding parse_reply
supports_reply = refl
