-- ===== src/Runner/Loop.antt =====
-- The loop of `run` in sandbox/runner.py ends.
use otari_sandbox_container.Base.{
  ℕ, zero, suc, ◌<◌, ◌≤◌, ◌≡◌, ◌≢◌, refl, Bool, true, false, ◌++◌, if◌then◌else◌, Text, Bytes, ℤ,
  pos, negsuc, length, ◌==◌, nat_eq, int_eq, arith, Bool-cases, inl, inr, Option, none, some,
  length-drop,
}
use otari_sandbox_container.Decimal.{parse_int, strip}
use otari_sandbox_container.Runner.Input.{read_line_shorter, read_exact-take}
use otari_sandbox_container.Runner.{
  Exit, clean_eof, protocol_error, crashed, in_block, block_writes, stderr_value, return_code,
  on_header, respond, run_code, run, Stdin, Streams, Executed, BlockRun, block_ended, after_block,
  Round, go_on, stop, read_line, read_exact, write_all, run_one,
}

read_exact_le : (n : ℤ) (i : Stdin) → length (read_exact n i).1.bytes ≤ length i.bytes
read_exact_le (pos n) i = rw ((read_exact-take n i).1, length-drop n i.bytes) (omega arith)
read_exact_le (negsuc n) i = unfold read_exact in omega arith

module _ {G : Type 0} (printable : ℕ → Bool) (exec_block : G → Text → BlockRun G) where
  -- Every block ends, whatever the globals.
  abbrev pub AllEnd : Type 0
  AllEnd = (g : G) (code : Text) → (r : Executed G) × (exec_block g code ≡ block_ended r)

  -- the input that a round which goes on leaves
  abbrev Shrinks : ℕ → Round G → Type 0
  Shrinks n (go_on g s) = length s.input.bytes ≤ n
  Shrinks n (stop s e) = e ≢ in_block

  Shrinks-if :
      (n : ℕ) (b : Bool) (x y : Round G)
      → Shrinks n x
      → Shrinks n y
      → Shrinks n (if b then x else y)
  Shrinks-if n true x y h k = h
  Shrinks-if n false x y h k = k

  respond-Shrinks :
      (n : ℕ) (s : Streams) (r : Executed G)
      → length s.input.bytes ≤ n
      → Shrinks n (respond printable exec_block s r)
  respond-Shrinks n s r h =
      Shrinks-if n
        (write_all (block_writes r.stdout (stderr_value r.stderr r.ending) (return_code r.ending))
          (s.out ++ r.raw)).1
        (go_on r.globals (record s { out = _ })) (stop (record s { out = _ }) crashed) h (λ e. cc)

  module _ (all_end : AllEnd) where
    after_block-Shrinks :
        (n : ℕ) (s : Streams) (g : G) (code : Text)
        → length s.input.bytes ≤ n
        → Shrinks n (after_block printable exec_block s (exec_block g code))
    after_block-Shrinks n s g code h =
        let (r, ends) = all_end g code in rw ends (respond-Shrinks n s r h)

    run_code-Shrinks :
        (n : ℕ) (g : G) (s : Streams) (m : ℤ)
        → length s.input.bytes ≤ n
        → Shrinks n (run_code printable exec_block g s m)
    run_code-Shrinks n g s m h =
        Shrinks-if n (pos (length (read_exact m s.input).0) == m) _ (stop _ protocol_error)
          (after_block-Shrinks n (record s { input = (read_exact m s.input).1 }) g _
            (omega (arith, read_exact_le m s.input)))
          (λ e. cc)

    parsed-Shrinks :
        (g : G) (s s' : Streams) (o : Option ℤ)
        → Shrinks (length s.input.bytes) (elim o [
          | none ↦ stop s' protocol_error
          | some m ↦ run_code printable exec_block g s m
        ])
    parsed-Shrinks g s s' none = λ e. cc
    parsed-Shrinks g s s' (some m) = run_code-Shrinks (length s.input.bytes) g s m (omega arith)

    on_header-Shrinks :
        (g : G) (s : Streams) (header : Text) (left : Bytes)
        → Shrinks (length left) (on_header printable exec_block g s header left)
    on_header-Shrinks g s header left =
        let s' : Streams = record s { input = record s.input { bytes = left } } in
        Shrinks-if (length left) (length header == 0) (stop s' clean_eof) _ (λ e. cc)
          (Shrinks-if (length left) (length (strip header) == 0) (go_on g s') _ (omega arith)
            (parsed-Shrinks g s' _ (parse_int (strip header))))

    abbrev Below : ℕ → Round G → Type 0
    Below n (go_on g s) = length s.input.bytes < n
    Below n (stop s e) = e ≢ in_block

    Shrinks-Below : (m n : ℕ) (x : Round G) → m < n → Shrinks m x → Below n x
    Shrinks-Below m n (go_on g s) h k = omega arith
    Shrinks-Below m n (stop s e) h k = k

    -- A round that goes on has consumed at least a byte.
    run_one-Below :
        (g : G) (s : Streams) → Below (length s.input.bytes) (run_one printable exec_block g s)
    unfolding run_one
    run_one-Below g s =
        let line = read_line s.input.bytes in
        elim (Bool-cases (length line.0 == 0)) [
          | inl e ↦ rw e (λ e. cc)
          | inr e ↦
              Shrinks-Below (length line.1) (length s.input.bytes)
                (on_header printable exec_block g s line.0 line.1)
                (read_line_shorter s.input.bytes (ground arith))
                (on_header-Shrinks g s line.0 line.1)
        ]

    abbrev Stops : Round G → Type 0
    Stops r = (s : Streams) × (e : Exit) × (r ≡ stop s e) × (e ≢ in_block)

    goes_on :
        (fuel n : ℕ) (x : Round G)
        → ((g : G) (s : Streams)
            → length s.input.bytes < fuel
            → Stops (run printable exec_block fuel g s))
        → Below n x
        → n ≤ fuel
        → Stops
            (elim x [ go_on g' s' ↦ run printable exec_block fuel g' s' | stop s' e ↦ stop s' e ])
    goes_on fuel n (go_on g s) ih h k = ih g s (omega arith)
    goes_on fuel n (stop s e) ih h k = (s, e, refl, h)

    -- Where every block ends, more rounds than the input has bytes are enough: `run` returns an exit
    -- code, or an exception leaves it, whatever the blocks print, raise and leave in the globals.
    pub run_ends :
        (fuel : ℕ) (g : G) (s : Streams)
        → length s.input.bytes < fuel
        → (s' : Streams) × (e : Exit) × (run printable exec_block fuel g s ≡ stop s' e)
          × (e ≢ in_block)
    unfolding run
    run_ends zero g s h = absurd (omega arith)
    run_ends (suc fuel) g s h =
        goes_on fuel (length s.input.bytes) (run_one printable exec_block g s) (run_ends fuel)
          (run_one-Below g s) (omega arith)
