-- ===== src/Build/Command/Words.antt =====
-- The words that a POSIX shell reads in the command of a job.
use pretext_plus_build_full.Common.{
  ℕ, String, ◌<>◌, some, List, [], ◌∷◌, ◌++◌, map, ◌≡◌, refl, ap, ◌∙◌,
}
use pretext_plus_build_full.Common.Text.{codes, join}
use pretext_plus_build_full.Common.Text.Quote.{quote}
use pretext_plus_build_full.Common.Text.Quote.Shell.{
  between, read, word_before, words_before, shell_words, codes-append, read-quote, read-join-quote,
}
use pretext_plus_build_full.Config.{Settings}
use pretext_plus_build_full.Config.Load.{default_build_command}
use pretext_plus_build_full.Build.Command.{build_command, generate_command}

words_before-some : (ws us : List (List ℕ)) → words_before ws (some us) ≡ some (ws ++ us)
words_before-some [] us = refl
words_before-some (w ∷ ws) us = ap (word_before w) (words_before-some ws us)

-- A literal before a text.
abbrev put : String → String → String
put String.[] t = t
put (String.◌∷◌ c s) t = String.◌∷◌ c (put s t)

-- The last word, with the end of the template behind it.
read-quote_last : (s : String) → read between [] (codes (quote s <> "")) ≡ some (codes s ∷ [])
unfolding read
read-quote_last s = ap (read between []) (codes-append (quote s) "") ∙ read-quote s []

-- With the default template, the shell reads in the command of a generate job exactly the words
-- `pretext generate`, the asset types, `-t` and the target, whatever characters these have.
pub generate_command_words :
    (settings : Settings) (target : String) (assets : List String)
    → settings.generate_command ≡ "pretext generate {assets} -t {target}"
    → (command : String) × (generate_command settings target assets ≡ some command)
      × (shell_words (codes command)
          ≡ some (
              codes "pretext"
              ∷ codes "generate"
              ∷ (map codes assets ++ (codes "-t" ∷ codes target ∷ []))))
unfolding generate_command shell_words read
generate_command_words settings target assets default =
    let list = join " " (map quote assets) in
    let tail = quote target <> "" in
    (
      put "pretext generate " (list <> put " -t " tail),
      rw (generate_command, default) refl,
      ap (λ l. read between [] (codes "pretext generate " ++ l))
            (codes-append list (put " -t " tail))
          ∙ ap (λ o. word_before (codes "pretext") (word_before (codes "generate") o))
              (read-join-quote assets (codes "-t " ++ codes tail)
                ∙ ap (λ o. words_before (map codes assets) (word_before (codes "-t") o))
                    (read-quote_last target)
                ∙ words_before-some (map codes assets) (codes "-t" ∷ codes target ∷ [])),
    )

-- With the default template, the command of a build ends, behind the copying of the prefetched
-- packages, in one simple command, in which the shell reads exactly the words `pretext build` and
-- the target, whatever characters it has.
pub build_command_words :
    (settings : Settings) (target : String)
    → settings.build_command ≡ default_build_command
    → (command : String) × (line : List ℕ) × (build_command settings target ≡ some command)
      × (codes command
          ≡ codes (
              "if [ -d ~/.ptx/latex-packages ]; then mkdir -p generated-assets/latex-packages"
              <> " && cp -r ~/.ptx/latex-packages/. generated-assets/latex-packages/; fi;")
            ++ line)
      × (shell_words line ≡ some (codes "pretext" ∷ codes "build" ∷ codes target ∷ []))
unfolding build_command shell_words read default_build_command
build_command_words settings target default =
    let tail = quote target <> "" in
    let setup =
      "if [ -d ~/.ptx/latex-packages ]; then mkdir -p generated-assets/latex-packages"
      <> " && cp -r ~/.ptx/latex-packages/. generated-assets/latex-packages/; fi;" in
    (
      put setup (put " pretext build " tail),
      codes (put " pretext build " tail),
      rw (build_command, default) refl,
      refl,
      ap (λ o. word_before (codes "pretext") (word_before (codes "build") o))
          (read-quote_last target),
    )
