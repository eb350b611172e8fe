-- ===== src/Runner/Block.antt =====
-- One round of `run` in sandbox/runner.py: a well-formed request is run and answered.
use otari_sandbox_container.Base.{
  ℕ, ◌≡◌, refl, ap, ◌∙◌, Bool, true, false, List, [], ◌∷◌, ◌++◌, Text, Bytes, codes, pos, length,
  append_assoc, ◌==◌, nat_eq, int_eq, arith, all_of, some, take-append_self, drop-append_self, ltb,
}
use otari_sandbox_container.Decimal.{
  is_digit, show_int, show_nat, parse_int, parse_int-show_int, show_nat-IsDigits, strip-IsDigits,
  show_nat_pos,
}
use otari_sandbox_container.Utf8.Codec.{encode_chars, is_scalar_text}
use otari_sandbox_container.Utf8.RoundTrip.{
  decode_replace-encode_chars, encode_chars-ascii, encode_chars-append,
}
use otari_sandbox_container.Runner.Input.{read_line-digits, read_exact-take}
use otari_sandbox_container.Runner.{
  crashed, on_header, respond, run_code, Stdin, Streams, Executed, BlockRun, block_ended,
  after_block, go_on, stop, read_line, read_exact, write_all, block_writes, frame_writes,
  return_code, stderr_value, run_one, sentinel_stdout,
}
use otari_sandbox_container.RunnerPool.{request}
use otari_sandbox_container.Runner.Frames.{
  response, join-block_writes, write_all-scalar, block_writes-Encodable,
}

request-digits :
    (code : Text) → request code ≡ show_nat (length (encode_chars code)) ++ 10 ∷ encode_chars code
unfolding request show_int
request-digits code =
    let ds = show_nat (length (encode_chars code)) in
    ap (λ h. h ++ encode_chars code)
      (encode_chars-append ds (codes "\n")
        ∙ ap (λ h. h ++ encode_chars (codes "\n"))
            (ascii ds (show_nat-IsDigits (length (encode_chars code))))
        ∙ ap (λ h. ds ++ h) (encode_chars-ascii (codes "\n") refl))
    ∙ append_assoc ds (codes "\n") (encode_chars code)
  where
    ascii : (s : Text) → all_of is_digit s ≡ true → encode_chars s ≡ s
    ascii s h = encode_chars-ascii s (small s h)
      where
        small : (s : Text) → all_of is_digit s ≡ true → all_of (λ c. ltb c 0x80) s ≡ true
        small [] h = refl
        small (c ∷ s) h = ground (arith, small s)

-- the rest of an input that begins with a request
abbrev Holds : Stdin → Bytes → Bytes → Type 0
Holds i first rest = i.bytes ≡ first ++ rest

read_exact-append :
    (n : ℕ) (i : Stdin) (first rest : Bytes)
    → length first ≡ n
    → Holds i first rest
    → ((read_exact (pos n) i).0 ≡ first) × ((read_exact (pos n) i).1.bytes ≡ rest)
read_exact-append n i first rest len h =
    let r = read_exact-take n i in
    (
      r.0 ∙ rw (h, ← len) (take-append_self first rest),
      r.1 ∙ rw (h, ← len) (drop-append_self first rest),
    )

write_all-unencodable :
    (t u : Text) (ts : List Text) (out : Bytes)
    → is_scalar_text t ≡ true
    → is_scalar_text u ≡ false
    → write_all (t ∷ u ∷ ts) out ≡ (out ++ encode_chars t, false)
unfolding write_all
write_all-unencodable t u ts out a b = rw (a, b, write_all) refl

module _ {G : Type 0} (printable : ℕ → Bool) (exec_block : G → Text → BlockRun G) where
  respond-scalar :
      (s : Streams) (r : Executed G)
      → is_scalar_text r.stdout ≡ true
      → is_scalar_text (stderr_value r.stderr r.ending) ≡ true
      → respond printable exec_block s r
        ≡ go_on r.globals (record s {
          out =
              (s.out ++ r.raw)
              ++ encode_chars
                  (response r.stdout (stderr_value r.stderr r.ending) (return_code r.ending));
        })
  respond-scalar s r a b =
      let e = stderr_value r.stderr r.ending in
      let code = return_code r.ending in
      rw
        (
          write_all-scalar (block_writes r.stdout e code) (s.out ++ r.raw)
              (block_writes-Encodable r.stdout e code a b),
          join-block_writes r.stdout e code,
        )
        refl

  run_code-request :
      (g : G) (s : Streams) (code : Text) (rest : Bytes)
      → is_scalar_text code ≡ true
      → s.input.bytes ≡ encode_chars code ++ rest
      → let n = pos (length (encode_chars code)) in
        run_code printable exec_block g s n
        ≡ after_block printable exec_block
            (record s { input = (read_exact n s.input).1 })
            (exec_block g code)
  run_code-request g s code rest scalar holds =
      let r =
        read_exact-append (length (encode_chars code)) s.input (encode_chars code) rest refl
          holds in
      rw (
        r.0,
        decode_replace-encode_chars code scalar,
        (int_eq.decides (pos (length (encode_chars code))) (pos (length (encode_chars code)))).1
            refl,
      )

  respond-surrogate :
      (s : Streams) (r : Executed G)
      → is_scalar_text r.stdout ≡ false
      → respond printable exec_block s r
        ≡ stop
            (record s { out = (s.out ++ r.raw) ++ encode_chars (sentinel_stdout ++ codes "\n") })
            crashed
  unfolding block_writes frame_writes
  respond-surrogate s r a =
      rw (write_all-unencodable (sentinel_stdout ++ codes "\n") r.stdout _ (s.out ++ r.raw) refl a)
        refl

  -- The round that a request starts comes down to the answer to the executed block.
  pub run_one-respond :
      (g : G) (s : Streams) (code : Text) (rest : Bytes)
      → is_scalar_text code ≡ true
      → s.input.bytes ≡ request code ++ rest
      → (i : Stdin) × (i.bytes ≡ rest)
        × (run_one printable exec_block g s
            ≡ after_block printable exec_block (record s { input = i }) (exec_block g code))
  unfolding run_one
  run_one-respond g s code rest scalar holds =
      let payload = encode_chars code in
      let n = length payload in
      let line : read_line s.input.bytes ≡ (show_nat n, payload ++ rest) =
        ap read_line (
          holds
          ∙ ap (λ t. t ++ rest) (request-digits code)
          ∙ append_assoc (show_nat n) (10 ∷ payload) rest)
        ∙ read_line-digits (show_nat n) (payload ++ rest) (show_nat-IsDigits n) in
      let some_digits : (length (show_nat n) == 0) ≡ false = ground (arith, show_nat_pos n) in
      let parsed : parse_int (show_nat n) ≡ some (pos n) =
        unfold show_int in parse_int-show_int (pos n) in
      let s₁ : Streams = record s { input = record s.input { bytes = payload ++ rest } } in
      (
        (read_exact (pos n) s₁.input).1,
        (read_exact-append n s₁.input payload rest refl refl).1,
        ap (λ (l : Text × Bytes). on_header printable exec_block g s l.0 l.1) line
            ∙ rw
                (
                  some_digits,
                  strip-IsDigits (show_nat n) (show_nat-IsDigits n),
                  some_digits,
                  parsed,
                )
                (run_code-request g s₁ code rest scalar refl),
      )

  -- One round on an input that begins with the request for `code`, where the block ends: the round goes
  -- on from the globals that it leaves, the request is consumed to its last byte, and the bytes
  -- that the block wrote to the file descriptor itself and then the response have been written.
  pub run_one-request :
      (g : G) (s : Streams) (code : Text) (rest : Bytes) (r : Executed G)
      → exec_block g code ≡ block_ended r
      → is_scalar_text code ≡ true
      → s.input.bytes ≡ request code ++ rest
      → is_scalar_text r.stdout ≡ true
      → is_scalar_text (stderr_value r.stderr r.ending) ≡ true
      → (s' : Streams) × (run_one printable exec_block g s ≡ go_on r.globals s')
        × (s'.input.bytes ≡ rest)
        × (s'.out
            ≡ (s.out ++ r.raw)
              ++ encode_chars
                  (response r.stdout (stderr_value r.stderr r.ending) (return_code r.ending)))
        × (s'.err ≡ s.err)
  run_one-request g s code rest r ends scalar holds a b =
      let (i, left, same) = run_one-respond g s code rest scalar holds in
      (
        _,
        same
            ∙ ap (after_block printable exec_block (record s { input = i })) ends
            ∙ respond-scalar (record s { input = i }) r a b,
        left,
        refl,
        refl,
      )

  -- One round on an input that begins with the request for `code`, where the block ends and leaves a surrogate
  -- in its captured stdout: the exception leaves `run`, and after what the block wrote itself only the
  -- opening line of the stdout frame has been written.
  pub run_one-surrogate :
      (g : G) (s : Streams) (code : Text) (rest : Bytes) (r : Executed G)
      → exec_block g code ≡ block_ended r
      → is_scalar_text code ≡ true
      → s.input.bytes ≡ request code ++ rest
      → is_scalar_text r.stdout ≡ false
      → (s' : Streams) × (run_one printable exec_block g s ≡ stop s' crashed)
        × (s'.out ≡ (s.out ++ r.raw) ++ encode_chars (sentinel_stdout ++ codes "\n"))
  run_one-surrogate g s code rest r ends scalar holds a =
      let (i, left, same) = run_one-respond g s code rest scalar holds in
      (
        _,
        same
            ∙ ap (after_block printable exec_block (record s { input = i })) ends
            ∙ respond-surrogate (record s { input = i }) r a,
        refl,
      )
