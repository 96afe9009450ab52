-- ===== src/Kind.antt =====
-- src/types.rs and src/control.rs: the kinds of nodes, the channels, and frontier commands.
pub mod Codec
use Prim.Native.Char.{code}
use Prim.Native.String.{◌++◌}
use Prim.Native.String
use text.Mathlib.Text.{◌==◌ as str_eq, is_le}
use weavegraph.Base.{
  String, Option, none, some, if◌then◌else◌, ◌==◌, ℕ-key, ◌≡◌, refl, sym, ap, ◌≢◌, Key,
  String-discrete, List, Bool, true, false,
}

pub data NodeKind : Type 0 where
  start end : NodeKind
  custom : String → NodeKind

pub custom-injective : {a b : String} → custom a ≡ custom b → a ≡ b
custom-injective e = cc

pub start-ne-end : start ≢ end
start-ne-end e = cc

pub start-ne-custom : {a : String} → start ≢ custom a
start-ne-custom e = cc

pub end-ne-custom : {a : String} → end ≢ custom a
end-ne-custom e = cc

abbrev pub custom_cases : {a b : String} → Dec (a ≡ b) → Dec (custom a ≡ custom b)
custom_cases (yes e) = yes (ap custom e)
custom_cases (no n) = no (λ e. n (custom-injective e))

abbrev pub kind_eq? : (a b : NodeKind) → Dec (a ≡ b)
kind_eq? start start = yes refl
kind_eq? end end = yes refl
kind_eq? (custom a) (custom b) = custom_cases (String-discrete a b)
kind_eq? start end = no start-ne-end
kind_eq? end start = no (λ e. start-ne-end (sym e))
kind_eq? start (custom b) = no start-ne-custom
kind_eq? (custom a) start = no (λ e. start-ne-custom (sym e))
kind_eq? end (custom b) = no end-ne-custom
kind_eq? (custom a) end = no (λ e. end-ne-custom (sym e))

instance abbrev pub NodeKind-key : Key NodeKind
NodeKind-key = record { eq? = kind_eq? }

-- `Display` and `as_target`.
unfoldable pub to_string : NodeKind → String
to_string start = "Start"
to_string end = "End"
to_string (custom name) = name

-- The order of `sort_by_key(|k| k.to_string())`.
unfoldable pub display_le : NodeKind → NodeKind → Bool
unfolding to_string
display_le a b = is_le (String.compare (to_string a) (to_string b))

unfoldable pub encode : NodeKind → String
encode start = "Start"
encode end = "End"
encode (custom name) = "Custom:" ++ name

-- `strip_prefix`.
pub strip_prefix : String → String → Option String
strip_prefix String.[] s = some s
strip_prefix (String.◌∷◌ c p) String.[] = none
strip_prefix (String.◌∷◌ c p) (String.◌∷◌ d s) = if code c == code d then strip_prefix p s else none

unfoldable pub decode : String → NodeKind
unfolding strip_prefix
decode s =
    if str_eq s "Start"
    then start
    else if str_eq s "End"
    then end
    else elim (strip_prefix "Custom:" s) [ some rest ↦ custom rest | none ↦ custom s ]

-- `From<&str>`.
unfoldable pub from_str : String → NodeKind
from_str s = if str_eq s "Start" then start else if str_eq s "End" then end else custom s

pub is_start : NodeKind → Bool
is_start k = elim k [ start ↦ true | end ↦ false | custom _ ↦ false ]

pub is_end : NodeKind → Bool
is_end k = elim k [ start ↦ false | end ↦ true | custom _ ↦ false ]

pub is_custom : NodeKind → Bool
is_custom k = elim k [ start ↦ false | end ↦ false | custom _ ↦ true ]

pub data ChannelType : Type 0 where
  message error extra : ChannelType

pub message-ne-error : message ≢ error
message-ne-error e = cc

pub message-ne-extra : message ≢ extra
message-ne-extra e = cc

pub error-ne-extra : error ≢ extra
error-ne-extra e = cc

abbrev pub channel_eq? : (a b : ChannelType) → Dec (a ≡ b)
channel_eq? message message = yes refl
channel_eq? error error = yes refl
channel_eq? extra extra = yes refl
channel_eq? message error = no message-ne-error
channel_eq? message extra = no message-ne-extra
channel_eq? error message = no (λ e. message-ne-error (sym e))
channel_eq? error extra = no error-ne-extra
channel_eq? extra message = no (λ e. message-ne-extra (sym e))
channel_eq? extra error = no (λ e. error-ne-extra (sym e))

instance abbrev pub ChannelType-key : Key ChannelType
ChannelType-key = record { eq? = channel_eq? }

-- src/control.rs
pub data NodeRoute : Type 0 where
  node : NodeKind → NodeRoute

unfoldable pub to_node_kind : NodeRoute → NodeKind
to_node_kind (node kind) = kind

pub data FrontierCommand : Type 0 where
  append replace : List NodeRoute → FrontierCommand
