-- ===== src/Limits/Truncation.antt =====
-- `truncate_output` of sandbox/limits.py against the clip of a text to a number of bytes.
use otari_sandbox_container.Base.{
  ℕ, ◌+◌, ◌-◌, ◌<◌, ◌≤◌, ◌≡◌, ap, ◌∙◌, true, none, some, ◌++◌, [], ◌∷◌, if◌then◌else◌, Text, Bytes,
  ℤ, pos, leb, arith, ◌⊎◌, append_assoc, ◌≢◌, Option, lt→leb_false,
}
use otari_sandbox_container.Utf8.Codec.{is_scalar_text, decode_replace, replacement}
use otari_sandbox_container.Utf8.Cut.{clip, decode_replace-take}
use otari_sandbox_container.Utf8.Clip.{
  byte_length, kept, left_out, patch, clip-eq-kept, kept-left_out, patch_cases, byte_length-kept,
  kept_room,
}
use otari_sandbox_container.Utf8.Scalar.{decode_replace-scalar}
use otari_sandbox_container.Limits.{truncate_output, truncation_marker}

-- A text that UTF-8 can encode is returned whole with 0 if its encoding has at most `n` bytes.
-- Otherwise it is clipped to the code points that fit in `n` bytes, with U+FFFD for one that the cut
-- falls in, the marker follows, and the number returned is the number of bytes past `n`.
pub truncate_output-clip :
    (text : Text) (n : ℕ)
    → is_scalar_text text ≡ true
    → truncate_output text (pos n)
      ≡ some (
          if leb (byte_length text) n then (text, pos 0) else (
            clip n text ++ truncation_marker (pos (byte_length text - n)),
            pos (byte_length text - n),
          ))
unfolding truncate_output
truncate_output-clip text n scalar =
    rw (scalar, truncate_output) (ground (arith, decode_replace-take n text scalar))

module _ (text : Text) (n : ℕ) where
  -- A text that is too long loses its end: what is returned is a beginning of the text that takes at
  -- most `n` bytes, and more than `n - 4`, then at most one U+FFFD, then the marker.
  pub truncate_output_long :
      is_scalar_text text ≡ true
      → n < byte_length text
      → let dropped = pos (byte_length text - n) in
        (truncate_output text (pos n)
          ≡ some (kept n text ++ (patch n text ++ truncation_marker dropped), dropped))
        × (kept n text ++ left_out n text ≡ text)
        × (byte_length (kept n text) ≤ n)
        × (n < byte_length (kept n text) + 4)
        × ((patch n text ≡ []) ⊎ (patch n text ≡ replacement ∷ []))
  truncate_output_long scalar long = (
    truncate_output-clip text n scalar ∙ rw (lt→leb_false (byte_length text) n long) shape,
    kept-left_out n text,
    byte_length-kept n text,
    kept_room n text long,
    patch_cases n text,
  )
    where
      dropped : ℤ
      dropped = pos (byte_length text - n)

      shape :
          ◌≡◌ {A = Option (Text × ℤ)}
            (some (clip n text ++ truncation_marker dropped, dropped))
            (some (kept n text ++ (patch n text ++ truncation_marker dropped), dropped))
      shape =
          ap (λ s. some (s, dropped))
            (ap (λ s. s ++ truncation_marker dropped) (clip-eq-kept n text)
              ∙ append_assoc (kept n text) (patch n text) (truncation_marker dropped))

-- Output that was decoded with `errors="replace"` is truncated without an error, whatever the bytes
-- and the bound.
pub truncate_output-decode_replace :
    (bs : Bytes) (max_bytes : ℤ) → truncate_output (decode_replace bs) max_bytes ≢ none
unfolding truncate_output
truncate_output-decode_replace bs max_bytes h = ground (arith, decode_replace-scalar bs)
