-- ===== src/Tools/Perforce/Running/Output.antt =====
-- What `run` of internal/tools/perforce.go makes of what p4 prints.
use butterstack_connector.Prelude.{
  ℕ, ◌≤◌, ◌≡◌, ◌⊎◌, inl, inr, refl, sym, ap, ◌∙◌, false, List, [], ◌++◌, none, some, Bytes, codes,
  arith, length, length-take, take, ltb, Bool-cases, Option-cases,
}
use butterstack_connector.Tools.Perforce.{CappedBuffer, max_tool_output_bytes, PerforceConfig, argv}
use butterstack_connector.Tools.Perforce.Buffer.{
  write_all, empty_buffer, concatenated, take_short, write_all_capped,
}
use butterstack_connector.Tools.Perforce.Failures.{Machine, failure_detail}
use butterstack_connector.Tools.Perforce.Running.{Process, Start, Ran, env, read_output, run_p4}

not_ltb→≤ : (a b : ℕ) → ltb a b ≡ false → b ≤ a
not_ltb→≤ a b h = ground arith

module _ {F : Type 0} (host : Machine F) where
  -- A success gives the records of the whole output of a process that did not fail; what fails
  -- gives no records, and counts no more bytes than the ceiling.
  abbrev pub IsReadOf : Process → Ran → Type 0
  IsReadOf p r =
      ((r.error ≡ none)
        × (p.failed ≡ none)
        × (length (concatenated p.stdout) ≤ max_tool_output_bytes)
        × (r.records ≡ host.decode (concatenated p.stdout))
        × (r.size ≡ length (concatenated p.stdout)))
      ⊎ ((e : Bytes) × (r.error ≡ some (codes "perforce: " ++ e))
          × (r.records ≡ [])
          × (r.size ≤ max_tool_output_bytes))

  read_output-IsReadOf :
      (p : Process) (c : CappedBuffer)
      → c.buf ≡ take max_tool_output_bytes (concatenated p.stdout)
      → c.overflowed ≡ ltb max_tool_output_bytes (length (concatenated p.stdout))
      → IsReadOf p (read_output host p c)
  unfolding read_output
  read_output-IsReadOf p c front flag =
      let size : length c.buf ≤ max_tool_output_bytes =
        omega (arith, ap length front, length-take max_tool_output_bytes (concatenated p.stdout)) in
      elim (Option-cases p.failed) [
        | inr (e, is) ↦
            rw (is, read_output) (inr (failure_detail host c.buf p.stderr e, refl, refl, size))
        | inl fine ↦ elim (Bool-cases c.overflowed) [
          | inl over ↦ rw (fine, read_output) (rw over (inr (_, refl, refl, size)))
          | inr fits ↦
              let short : length (concatenated p.stdout) ≤ max_tool_output_bytes =
                not_ltb→≤ max_tool_output_bytes _ (sym flag ∙ fits) in
              let whole : c.buf ≡ concatenated p.stdout =
                front ∙ take_short max_tool_output_bytes (concatenated p.stdout) short in
              rw (fine, read_output)
                (rw fits (inl (refl, refl, short, ap host.decode whole, ap length whole)))
        ]
      ]

  -- `run` succeeds only for a process that did not fail and whose whole output was held, and then
  -- gives the records of that output and its size; on every other path it returns an error and no
  -- records, and never more bytes than the ceiling.
  pub run_p4-IsReadOf :
      (start : Start) (cfg : PerforceConfig) (args : List Bytes)
      → IsReadOf (start cfg.binary (argv cfg args) (env host cfg)) (run_p4 host start cfg args).0
  unfolding run_p4
  run_p4-IsReadOf start cfg args =
      let p : Process = start cfg.binary (argv cfg args) (env host cfg) in
      let (front, flag) = write_all_capped max_tool_output_bytes p.stdout in
      read_output-IsReadOf p (write_all (empty_buffer max_tool_output_bytes) p.stdout) front flag
