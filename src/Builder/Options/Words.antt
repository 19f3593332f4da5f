-- ===== src/Builder/Options/Words.antt =====
-- What a shell reads in the texts that joinCommand and joinArgs of internal/router/builder.go give.
use las.Prelude.{String, some, List, ◌∷◌, map, codes, ◌≡◌}
use las.Control.{command_string}
use las.Control.Shell.{shell_words, shell_words-command_string}
use las.Builder.Options.{shell_quote, join_command}

-- A shell reads the text of a joined command as its program and its arguments, each one word,
-- whatever characters they hold.
pub shell_words-join_command :
    (program : String) (args : List String)
    → shell_words (codes (join_command program args)) ≡ some (map codes (program ∷ args))
unfolding join_command shell_quote command_string las.Control.shell_quote
shell_words-join_command program args =
    shell_words-command_string (record { program = program; args = args })
