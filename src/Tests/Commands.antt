-- ===== src/Tests/Commands.antt =====
-- The commands of jobs and the sizes of trees, on concrete input.
use pretext_plus_build_full.Common.{
  ℕ, String, Option, some, none, List, [], ◌∷◌, ◌++◌, ◌<>◌, ◌==◌, ◌≡◌, if◌then◌else◌, refl,
}
use pretext_plus_build_full.Prefetch.{Progress, fetch}
use pretext_plus_build_full.Common.Text.{codes}
use pretext_plus_build_full.Common.Text.Quote.Shell.{shell_words}
use pretext_plus_build_full.Config.{Settings}
use pretext_plus_build_full.Config.Load.{default_build_command}
use pretext_plus_build_full.Files.{Entries, dir, file, link, to_file, entry, end}
use pretext_plus_build_full.Files.Walk.{dir_size}
use pretext_plus_build_full.Files.Walk.Totals.{total, dir_size-eq-total}
use pretext_plus_build_full.Build.Command.{build_command, generate_command}
use pretext_plus_build_full.Build.Command.Words.{generate_command_words, build_command_words}
use pretext_plus_build_full.Tests.Fixtures.{settings}

-- A target that tries to end the quotes and to run another command.
abbrev target : String
target = "web'; rm -rf /"

abbrev assets : List String
assets = "latex-image" ∷ "sageplot" ∷ []

generate_command_words_example :
    (command : String) × (generate_command settings target assets ≡ some command)
    × (shell_words (codes command)
        ≡ some (
            codes "pretext"
            ∷ codes "generate"
            ∷ codes "latex-image"
            ∷ codes "sageplot"
            ∷ codes "-t"
            ∷ codes target
            ∷ []))
generate_command_words_example = generate_command_words settings target assets refl

abbrev default_settings : Settings
default_settings = record settings { build_command = default_build_command }

build_command_words_example :
    (command : String) × (line : List ℕ) × (build_command default_settings target ≡ some command)
    × (codes command
        ≡ codes (
            "if [ -d ~/.ptx/latex-packages ]; then mkdir -p generated-assets/latex-packages"
            <> " && cp -r ~/.ptx/latex-packages/. generated-assets/latex-packages/; fi;")
          ++ line)
    × (shell_words line ≡ some (codes "pretext" ∷ codes "build" ∷ codes target ∷ []))
build_command_words_example = build_command_words default_settings target refl

-- A file of four bytes, once by itself and once in a directory, and a link.
abbrev four : Entries
four = entry "a" (file (1 ∷ 2 ∷ 3 ∷ 4 ∷ [])) end

abbrev tree : Entries
tree = entry "sub" (dir four) (entry "link" (link 9 (to_file [])) four)

dir_size-eq-total_example : dir_size tree ≡ total tree
dir_size-eq-total_example = dir_size-eq-total tree

-- The cache is the list of the journals in it; one journal's address is dead.
abbrev place : String → List String → Option String × List String
place code cache = if code == "ejc" then (some "404", cache) else (none, cache ++ (code ∷ []))

abbrev journals : List String
journals = "ams" ∷ "ejc" ∷ "springer" ∷ []

abbrev at_end : Progress (List String)
at_end = fetch place journals (record { failed = []; stderr = []; cache = [] })
