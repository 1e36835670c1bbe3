-- ===== src/Message/Codec/Unvalidated.antt =====
-- src/contracts.rs: `parse_cultnet_message` does not validate the messages of
-- gamecult.networking.v0, `encode_cultnet_message_for_wire` does.
use cultnet_rs.Base.{ℕ, ◌≡◌, refl, List, [], ◌∷◌, true}
use cultnet_rs.Base.Base64.{Base64}
use cultnet_rs.Base.Int.{pos}
use cultnet_rs.Base.Text.{trim_is_empty}
use cultnet_rs.Base.Outcome.{ok, err}
use cultnet_rs.Message
use cultnet_rs.Message.{gamecult_networking_v0, empty_field}
use cultnet_rs.Message.Validate.{validate_message}
use cultnet_rs.Message.Wire.{Value}
use cultnet_rs.Message.Wire.Laws.{require_legacy_string-string}
use cultnet_rs.Message.Legacy.{parse_gamecult_networking_message}
use cultnet_rs.Message.Codec.{Serde, parse_cultnet_message, encode_cultnet_message_for_wire}

-- An error message of gamecult.networking.v0 whose text is blank is accepted when it is read, and refused when it
-- is written.
pub parse-blank-encode-blank :
    (V : Type 0) ⦃rmpv : Value V⦄ (engine : Base64) (serde : Serde V) (text : List ℕ)
    → trim_is_empty text ≡ true
    → (parse_cultnet_message engine serde
          (rmpv.array (rmpv.integer (pos 4) ∷ rmpv.array (rmpv.string text ∷ []) ∷ []))
          gamecult_networking_v0
        ≡ ok (Message.error text))
      × (encode_cultnet_message_for_wire engine serde (Message.error text) gamecult_networking_v0
          ≡ err empty_field)
unfolding parse_cultnet_message encode_cultnet_message_for_wire parse_gamecult_networking_message
    validate_message
parse-blank-encode-blank V ⦃rmpv⦄ engine serde text blank =
    (simp (rmpv.as_array-array, rmpv.as_i64-integer, require_legacy_string-string V), rw blank refl)
