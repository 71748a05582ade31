-- ===== src/Router/Reasons.antt =====
-- packages/adapter-sdk/src/native-vocabulary.mjs and OFFER_ERRORS of src/offer-observation.mjs: the
-- closed vocabulary in which a client may say why it is not live.
use agents_can_communicate.Base.{
  ℕ, Bool, true, false, ◌&&◌, ◌||◌, List, [], ◌∷◌, Text, codes, leb, eqb, length,
}

-- OFFER_ERRORS
unfoldable pub offer_errors : List Text
offer_errors =
    codes "ambiguous_recipient_sessions"
    ∷ codes "delivery_disabled"
    ∷ codes "recipient_busy"
    ∷ codes "recipient_unavailable"
    ∷ codes "transport_error"
    ∷ codes "transport_rejected"
    ∷ codes "transport_permission_denied"
    ∷ codes "unsupported_client_version"
    ∷ codes "inbound_approval_required"
    ∷ []

-- NATIVE_REASON_CODES
unfoldable pub native_reason_codes : List Text
native_reason_codes =
    codes "native_delivery_unsupported"
    ∷ codes "platform_not_captured"
    ∷ codes "version_unavailable"
    ∷ codes "prerelease_not_captured"
    ∷ codes "below_minimum_version"
    ∷ codes "known_bad_version"
    ∷ codes "feature_probe_failed"
    ∷ codes "probe_timeout"
    ∷ codes "probe_version_mismatch"
    ∷ codes "protocol_mismatch"
    ∷ codes "native_endpoint_unavailable"
    ∷ codes "native_session_unavailable"
    ∷ codes "transport_permission_denied"
    ∷ codes "handshake_failed"
    ∷ codes "handshake_timeout"
    ∷ codes "handshake_version_mismatch"
    ∷ codes "session_generation_stale"
    ∷ codes "client_process_unknown"
    ∷ codes "unsupported_shell"
    ∷ codes "workspace_identity_unavailable"
    ∷ codes "client_session_embedded"
    ∷ []

is_lower : ℕ → Bool
is_lower c = leb b'a' c && leb c b'z'

-- [a-z0-9]
is_word_unit : ℕ → Bool
unfolding is_lower
is_word_unit c = is_lower c || (leb b'0' c && leb c b'9')

-- [a-z0-9]*(?:-[a-z0-9]+)*; the flag says that a dash was just there.
words : (after_dash : Bool) → Text → Bool
unfolding is_word_unit
words true [] = false
words false [] = true
words true (c ∷ rest) = is_word_unit c && words false rest
words false (c ∷ rest) = (is_word_unit c && words false rest) || (eqb c b'-' && words true rest)

-- LAUNCH_OPTION: /^-(?:[a-z]|-[a-z][a-z0-9]*(?:-[a-z0-9]+)*)$/
unfoldable pub matches_launch_option : Text → Bool
unfolding is_lower words
matches_launch_option (a ∷ b ∷ []) = eqb a b'-' && is_lower b
matches_launch_option (a ∷ b ∷ c ∷ rest) =
    eqb a b'-' && eqb b b'-' && is_lower c && words false rest
matches_launch_option _ = false

-- `isLaunchOption`
unfoldable pub is_launch_option : Text → Bool
unfolding matches_launch_option
is_launch_option value = leb (length value) 40 && matches_launch_option value
