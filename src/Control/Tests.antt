-- ===== src/Control/Tests.antt =====
-- Commands as shell text, and plans carried out in memory.
use las.Prelude.{
  inl, inr, str_eq, eq_iff, arith, Any, ◌≢◌, true, false, false, true, String, none, some, [], ◌∷◌,
  ◌≡◌, refl, All, codes, map,
}
use las.Fmt.{sprintf}
use las.Os.{after}
use las.Os.Memory.{memory, memory-IsLawful, Files}
use las.Control.{Command, Step, Plan, command_string, step_write}
use las.Control.Shell.{shell_words, shell_words-command_string}
use las.Control.Files.{write_file, file_mode, fill_and_rename}
use las.Control.Files.Atomic.{IsAtomic, write_file-IsAtomic}
use las.Control.Executor.{execute, execute_steps, one_step, real_step, perform, go_on, dry_step}
use las.Control.Executor.Laws.{execute-dry, execute-append, execute-Accounts, Accounts, follow}
use las.Control.Executor.Writes.{Untouched, execute-writes, execute-others}

abbrev restart : Command
restart = record { program = "systemctl"; args = "restart" ∷ "it's me" ∷ "" ∷ [] }

restart_text : command_string restart ≡ "systemctl restart 'it'\"'\"'s me' ''"
unfolding command_string
restart_text = refl

shell_words-command_string_example :
    shell_words (codes (command_string restart))
    ≡ some (map codes ("systemctl" ∷ "restart" ∷ "it's me" ∷ "" ∷ []))
shell_words-command_string_example = shell_words-command_string restart

abbrev empty : Files
empty path = none

abbrev write_of : String → String → Step
write_of path content = record {
  kind = step_write;
  description = "write";
  command = none;
  path = path;
  mode = "0600";
  content = content;
}

abbrev two_writes : Plan
two_writes = record { steps = write_of "/etc/a" "one" ∷ write_of "/etc/b" "two" ∷ [] }

abbrev one_command : Plan
one_command = record {
  steps =
      record {
        kind = "command";
        description = "none";
        command = none;
        path = "";
        mode = "";
        content = "";
      }
      ∷ [];
}

run_writes : (execute memory false two_writes empty).2 ≡ none
unfolding execute write_file file_mode fill_and_rename execute_steps one_step real_step perform
    go_on after
run_writes = refl

run_missing : (execute memory true one_command empty).2 ≡ some "missing command for none"
unfolding execute execute_steps one_step dry_step go_on sprintf
run_missing = refl

write_file-IsAtomic_example :
    IsAtomic memory "/etc/a" "one" empty (write_file memory "/etc/a" "0600" "one" empty)
write_file-IsAtomic_example = write_file-IsAtomic memory memory-IsLawful "/etc/a" "0600" "one" empty

execute-dry_example : (execute memory true two_writes empty).0 ≡ empty
execute-dry_example = execute-dry memory two_writes empty

execute-append_example :
    execute memory false
      (record {
        steps =
            write_of "/etc/a" "one"
            ∷ write_of "/etc/b" "two"
            ∷ record {
              kind = "command";
              description = "none";
              command = none;
              path = "";
              mode = "";
              content = "";
            }
            ∷ [];
      })
      empty
    ≡ follow (execute memory false two_writes empty) (execute memory false one_command)
execute-append_example = execute-append memory false two_writes one_command empty

execute-Accounts_example :
    Accounts false two_writes.steps
      (execute memory false two_writes empty).1
      (execute memory false two_writes empty).2
execute-Accounts_example = execute-Accounts memory false two_writes empty

differs : (p q : String) → str_eq p q ≡ false → p ≢ q
differs p q h e = ground (arith, eq_iff p q)

paths_differ : ¬ Any (λ (p : String). p ≡ "/etc/a") ("/etc/b" ∷ [])
paths_differ (inl e) = differs "/etc/b" "/etc/a" refl e
paths_differ (inr e) = e

execute-writes_example :
    All
      (λ step. (execute memory false two_writes empty).0 step.path ≡ some step.content)
      two_writes.steps
execute-writes_example =
    execute-writes memory memory-IsLawful two_writes empty (refl, (refl, tt))
      (paths_differ, ((λ e. e), tt)) run_writes

elsewhere : ¬ Any (λ (p : String). p ≡ "/etc/c") ("/etc/a" ∷ "/etc/b" ∷ [])
elsewhere (inl e) = differs "/etc/a" "/etc/c" refl e
elsewhere (inr (inl e)) = differs "/etc/b" "/etc/c" refl e
elsewhere (inr (inr e)) = e

execute-others_example :
    Untouched
      (execute memory false two_writes empty).2
      none
      ((execute memory false two_writes empty).0 "/etc/c")
execute-others_example =
    execute-others memory memory-IsLawful two_writes empty (refl, (refl, tt)) "/etc/c" elsewhere
