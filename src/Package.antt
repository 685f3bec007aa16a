-- ===== src/Package.antt =====
-- src/package/mod.rs: the manifest of a package, what it may ask for, and its signature.
pub mod Trust
pub mod Install
use ph_reactor.Base.{
  ℕ, String, Bool, true, false, Option, none, some, List, [], ◌∷◌, ◌&&◌, ◌||◌, not, any, all,
  is_empty, length, leb, ltb, eqb, map, if◌then◌else◌,
}
use ph_reactor.Base.Eq.{◌==◌, string_eq}
use ph_reactor.Base.Chars.{codes, trim}
use ph_reactor.Base.Bytes.{bytes_eq}
use ph_reactor.Base.Result.{Result, ok, err, ◌>>◌}
use ph_reactor.Json.{Value}
use ph_reactor.Action.{Extern}
use ph_reactor.Blob.{BlobRef}

pub record WriteCapability : Type 0 where
  pub model : String
  pub kinds : List String

pub record Capabilities : Type 0 where
  pub read : List String
  pub write : List WriteCapability

pub record Projection : Type 0 where
  pub source : String
  pub trigger : String
  pub target : String
  pub into_ : String
  pub fields : List String

pub record Attention : Type 0 where
  pub model : String
  pub condition : List (String × Value)
  pub needs : String
  pub label : String

pub record NavItem : Type 0 where
  pub label : String
  pub icon : String
  pub view : String

pub record Manifest : Type 0 where
  pub name : String
  pub version : String
  pub description : String
  pub category : String
  pub publisher_name : String
  pub publisher_url : String
  pub publisher_key : String
  pub document_models : List Value
  pub processors : List Value
  pub bundle : Option BlobRef
  pub capabilities : Capabilities
  pub projections : List Projection
  pub attention : List Attention
  pub nav : List NavItem
  pub sig : String

pub data PackageError : Type 0 where
  missing_from missing_on missing_to missing_into no_fields : PackageError
  no_model no_needs nothing_to_say : PackageError
  too_many_items no_label long_label control_label reserved_label duplicate_label : PackageError
  long_icon control_icon bad_view : PackageError
  bad_key_hex bad_key_length bad_key bad_sig_hex bad_sig_length altered : PackageError

-- `hex`, the JSON of a manifest and the verification of ed25519; `to_lowercase` of Unicode.
pub record PackageExtern : Type 0 where
  pub hex_encode : List ℕ → String
  pub hex_decode : String → Option (List ℕ)
  pub manifest_to_vec : Manifest → List ℕ
  pub verify : List ℕ → List ℕ → List ℕ → Bool
  pub to_lowercase : List ℕ → List ℕ

abbrev pub Verdict : Type 0
Verdict = Result PackageError (Unit {0})

unfoldable pub unless : Bool → PackageError → Verdict
unless true e = ok tt
unless false e = err e

unfoldable pub is_blank : String → Bool
unfolding trim codes
is_blank s = is_empty (trim (codes s))

unfoldable pub validate_projection : Projection → Verdict
unfolding unless is_blank
validate_projection p =
    unless (not (is_blank p.source)) missing_from
    >> unless (not (is_blank p.trigger)) missing_on
    >> unless (not (is_blank p.target)) missing_to
    >> unless (not (is_blank p.into_)) missing_into
    >> unless (not (is_empty p.fields)) no_fields

unfoldable pub validate_attention : Attention → Verdict
unfolding unless is_blank
validate_attention a =
    unless (not (is_blank a.model)) no_model
    >> unless (not (is_blank a.needs)) no_needs
    >> unless (not (is_blank a.label)) nothing_to_say

unfoldable pub may_read : Capabilities → String → Bool
may_read c model = any (λ m. m == model) c.read

unfoldable pub may_write : Capabilities → String → String → Bool
may_write c model kind = any (λ w. w.model == model && any (λ k. k == kind) w.kinds) c.write

abbrev pub reserved_nav_labels : List String
reserved_nav_labels =
    "home" ∷ "groups" ∷ "plugins" ∷ "settings" ∷ "profile" ∷ "reactor" ∷ "documents" ∷ "types"
    ∷ "folders" ∷ "overview" ∷ "spaces" ∷ "space" ∷ []

abbrev pub max_nav_items : ℕ
max_nav_items = 3

-- `char::is_control`
unfoldable pub is_control : ℕ → Bool
is_control c = leb c 31 || (leb 127 c && leb c 159)

-- Letters and digits of ASCII, `-` and `_`.
unfoldable pub is_view_char : ℕ → Bool
is_view_char c =
    (leb 48 c && leb c 57)
    || ((leb 65 c && leb c 90) || ((leb 97 c && leb c 122) || (eqb c 45 || eqb c 95)))

-- An entry, after those with the labels `seen`; the label is trimmed, and lower-cased.
unfoldable pub validate_item : List (List ℕ) → List ℕ → List ℕ → NavItem → Verdict
unfolding unless is_control is_view_char codes bytes_eq
validate_item seen label folded item =
    unless (not (is_empty label)) no_label
    >> unless (leb (length label) 24) long_label
    >> unless (not (any is_control label)) control_label
    >> unless (not (any (λ r. bytes_eq (codes r) folded) reserved_nav_labels)) reserved_label
    >> unless (not (any (λ s. bytes_eq s folded) seen)) duplicate_label
    >> unless (leb (length (codes item.icon)) 2) long_icon
    >> unless (not (any is_control (codes item.icon))) control_icon
    >> unless (leb (length (codes item.view)) 32 && all is_view_char (codes item.view)) bad_view

module _ (x : Extern) (w : PackageExtern) where
  unfoldable pub validate_items : List (List ℕ) → List NavItem → Verdict
  unfolding validate_item trim codes
  validate_items seen [] = ok tt
  validate_items seen (item ∷ rest) =
      let label = trim (codes item.label) in
      let folded = w.to_lowercase label in
      validate_item seen label folded item >> validate_items (folded ∷ seen) rest

  -- `PluginUi::validate`
  unfoldable pub validate_ui : List NavItem → Verdict
  unfolding validate_items unless
  validate_ui nav = unless (leb (length nav) max_nav_items) too_many_items >> validate_items [] nav

  unfoldable pub manifest_bytes : Manifest → List ℕ
  manifest_bytes m = w.manifest_to_vec (record m { sig = "" })

  unfoldable pub sign_manifest : Manifest → List ℕ → Manifest
  unfolding manifest_bytes
  sign_manifest m key = record m { sig = w.hex_encode (x.sign key (manifest_bytes m)) }

  unfoldable pub verify_manifest : Manifest → Verdict
  unfolding manifest_bytes
  verify_manifest m = elim (w.hex_decode m.publisher_key) [
    | none ↦ err bad_key_hex
    | some key ↦
        if not (eqb (length key) 32)
        then err bad_key_length
        else if not (x.valid_key key)
        then err bad_key
        else elim (w.hex_decode m.sig) [
          | none ↦ err bad_sig_hex
          | some sig ↦
              if not (eqb (length sig) 64)
              then err bad_sig_length
              else if w.verify key (manifest_bytes m) sig
              then ok tt
              else err altered
        ]
  ]
