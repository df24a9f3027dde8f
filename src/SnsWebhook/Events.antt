-- ===== src/SnsWebhook/Events.antt =====
-- The message that a bounce leaves on the row, which the reputation reads.
use mathlib.Core.List.{append_assoc}
use zendou_backend.Common.{
  ℕ, zero, suc, ◌≡◌, refl, inl, inr, Bool, true, false, not, ◌&&◌, [], ◌∷◌, ◌++◌, arith, Bool-cases,
  ◌==◌,
}
use zendou_backend.Text.{Text, text, is_blank, take, starts_with}
use zendou_backend.Reputation.{hard_bounce_error_prefix}
use zendou_backend.SnsWebhook.{
  Payload, is_permanent, build_bounce_error_message, first_diagnostic, or_unknown,
}

-- The message of a permanent bounce begins as the reputation expects of a hard one, whatever the
-- diagnostic and in spite of the cut at 500 characters.
pub build_bounce_error_message-hard :
    (p : Payload)
    → is_permanent p ≡ true
    → starts_with (build_bounce_error_message p) hard_bounce_error_prefix ≡ true
unfolding build_bounce_error_message starts_with take
build_bounce_error_message-hard p permanent =
    elim (Bool-cases (is_blank (first_diagnostic p.recipients))) [
      | inl t ↦ rw (permanent, t) refl
      | inr f ↦ rw (permanent, f) refl
    ]

starts_with-take : (n : ℕ) (s t : Text) → starts_with s t ≡ false → starts_with (take n s) t ≡ false
unfolding starts_with take
starts_with-take n s [] h = cc
starts_with-take zero s (b ∷ t) h = refl
starts_with-take (suc n) [] (b ∷ t) h = refl
starts_with-take (suc n) (a ∷ s) (b ∷ t) h = ground (arith, starts_with-take n s t)

abbrev no_slash : Text → Bool
no_slash [] = true
no_slash (c ∷ t) = not (c == b'/') && no_slash t

starts_with-slash :
    (s rest t : Text)
    → no_slash t ≡ true
    → starts_with s t ≡ false
    → starts_with (s ++ b'/' ∷ rest) t ≡ false
unfolding starts_with
starts_with-slash s rest [] plain h = cc
starts_with-slash [] rest (b ∷ t) plain h = ground arith
starts_with-slash (a ∷ s) rest (b ∷ t) plain h = ground (arith, starts_with-slash s rest t)

soft_prefix :
    (n : ℕ) (s rest : Text)
    → starts_with s (text "Permanent") ≡ false
    → starts_with (take n (s ++ b'/' ∷ rest)) (text "Permanent") ≡ false
soft_prefix n s rest h =
    starts_with-take n (s ++ b'/' ∷ rest) (text "Permanent")
      (starts_with-slash s rest (text "Permanent") refl h)

soft_prefix-append :
    (n : ℕ) (s sub rest : Text)
    → starts_with s (text "Permanent") ≡ false
    → starts_with (take n ((s ++ b'/' ∷ sub) ++ rest)) (text "Permanent") ≡ false
soft_prefix-append n s sub rest h =
    rw (append_assoc s (b'/' ∷ sub) rest) (soft_prefix n s (sub ++ rest) h)

-- The message of a bounce whose type does not begin with "Permanent" is not taken for a hard one,
-- whatever its subtype and its diagnostic say.
pub build_bounce_error_message-soft :
    (p : Payload)
    → is_permanent p ≡ false
    → starts_with (or_unknown p.bounce_type) (text "Permanent") ≡ false
    → starts_with (build_bounce_error_message p) hard_bounce_error_prefix ≡ false
unfolding build_bounce_error_message starts_with take
build_bounce_error_message-soft p other type =
    elim (Bool-cases (is_blank (first_diagnostic p.recipients))) [
      | inl t ↦
          rw (other, t)
            (soft_prefix 493 (or_unknown p.bounce_type) (or_unknown p.bounce_sub_type) type)
      | inr f ↦
          rw (other, f)
            (soft_prefix-append 493 (or_unknown p.bounce_type) (or_unknown p.bounce_sub_type)
              (32 ∷ 0x2014 ∷ 32 ∷ first_diagnostic p.recipients) type)
    ]
