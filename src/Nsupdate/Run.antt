-- ===== src/Nsupdate/Run.antt =====
-- Upsert, Delete and run of updater.go, with what the operating system answers as a parameter.
use olimpo.Common.{Bool, Option, none, some, List, [], ◌∷◌, ◌++◌, Text, if◌then◌else◌, ℤ, not}
use olimpo.Errors.{Result, ok, err}
use olimpo.Text.{text, trim_space, is_empty}
use olimpo.Nsupdate.{build_upsert_script, build_delete_script}

-- NSUpdate
pub record NsUpdate : Type 0 where
  pub binary : Text
  pub server : Text
  pub tsig_key_file : Text

-- How a command ended: the error of `cmd.Run`, and what it wrote.
pub record Exit : Type 0 where
  pub error : Option Text
  pub stdout : Text
  pub stderr : Text

-- The system's answers: os.CreateTemp, with an error or the file's name; the errors of writing that
-- text to it and of closing it; and a command run with arguments while the file holds that text.
pub record System : Type 0 where
  pub create_temp : Text → Result Text Text
  pub write_string : Text → Text → Option Text
  pub close : Text → Option Text
  pub command : Text → List Text → Text → Exit

unfoldable pub run_args : Text → Text → List Text
run_args tsig_key_file name =
    if not (is_empty tsig_key_file) then text "-k" ∷ tsig_key_file ∷ name ∷ [] else name ∷ []

-- The end of run, at how the command ended.
unfoldable pub run_outcome : Option Text → Text → Text → Option Text
run_outcome (some e) stdout stderr =
    some (text "nsupdate failed: " ++ (e ++ (text ": " ++ trim_space stderr)))
run_outcome none stdout stderr =
    if not (is_empty (trim_space stdout))
    then some (text "nsupdate unexpected output: " ++ trim_space stdout)
    else none

-- `if err != nil { return err }`
abbrev pub or_error : Option Text → Option Text → Option Text
or_error (some e) rest = some e
or_error none rest = rest

abbrev pub in_file : (Text → Option Text) → Result Text Text → Option Text
in_file next (err e) = some e
in_file next (ok name) = next name

-- run: the error, if there is one
unfoldable pub run_nsupdate : System → NsUpdate → Text → Option Text
unfolding run_args run_outcome
run_nsupdate system n script =
    in_file
      (λ name. or_error (system.write_string name script) (
        or_error (system.close name) (
          let exit : Exit = system.command n.binary (run_args n.tsig_key_file name) script in
          run_outcome exit.error exit.stdout exit.stderr)))
      (system.create_temp (text "hermes-nsupdate-*.txt"))

-- Upsert
unfoldable pub upsert_record :
    System → NsUpdate → Text → Text → Text → Text → ℤ → Bool → Option Text
unfolding run_nsupdate build_upsert_script
upsert_record system n hostname zone record_type target ttl wildcard =
    run_nsupdate system n
      (build_upsert_script n.server hostname zone record_type target ttl wildcard)

-- Delete
unfoldable pub delete_record : System → NsUpdate → Text → Text → Text → Bool → Option Text
unfolding run_nsupdate build_delete_script
delete_record system n hostname zone record_type wildcard =
    run_nsupdate system n (build_delete_script n.server hostname zone record_type wildcard)
