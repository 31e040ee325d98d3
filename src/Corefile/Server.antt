-- ===== src/Corefile/Server.antt =====
-- Run of pkg/coredns/coredns.go: the embedded CoreDNS, from the text of its configuration to the
-- server that it waits for. Caddy is a parameter.
use k8s_dns_manager.Prelude.{
  ◌≡◌, refl, ◌⊎◌, inl, inr, Bool, true, not, Option, none, some, List, [], ◌∷◌, ◌++◌, Text, codes,
  Error, Result, ok, err, All, map, if◌then◌else◌, Option-cases,
}
use k8s_dns_manager.Corefile.{Config, render, loaded}
use k8s_dns_manager.Corefile.Words.{lines, words}
use k8s_dns_manager.Corefile.Reading.{
  IsWritable, settings, is_directive, render-read, loaded-render,
}

-- caddy.LoadCaddyfile where the default loader returns the text, the error of caddy.Start on its
-- result, and caddy.IsUpgrade.
pub record Caddy : Type 0 where
  pub load : Text → Result Text
  pub start : Text → Option Error
  pub is_upgrade : Bool

-- What Run does, in order; `waited` is a server that was started with the text.
pub data RunEffect : Type 0 where
  output_to_stdout output_to_stderr : RunEffect
  waited : Text → RunEffect
  fatal : Error → RunEffect

module _ (c : Caddy) where
  unfoldable pub must_log_fatal : Error → List RunEffect
  must_log_fatal e = (if not c.is_upgrade then output_to_stderr ∷ [] else []) ++ fatal e ∷ []

  started : Text → Option Error → List RunEffect
  started corefile (some e) = must_log_fatal e
  started corefile none = waited corefile ∷ []

  loaded_from : Result Text → List RunEffect
  loaded_from (err e) = must_log_fatal e
  loaded_from (ok corefile) = started corefile (c.start corefile)

  unfoldable pub run : Text → List RunEffect
  unfolding loaded_from started
  run config = output_to_stdout ∷ loaded_from (c.load (loaded config))

  -- Run on a rendered configuration, with a Caddy that hands on what the loader returns, waits for
  -- a server that was started with this text, or ends in the error of the start. Read line by line
  -- and word by word, the text is one server block for port 53, in which each setting that is
  -- asked for stands on a line of its own with its arguments, in the order of the template, when
  -- the external address has no blank or line break and no forward server has one or is empty;
  -- every setting begins with a directive of the server's list.
  pub run-render :
      (config : Config)
      → IsWritable config
      → ((t : Text) → c.load t ≡ ok t)
      → (((c.start (render config) ≡ none)
            × (run (render config) ≡ output_to_stdout ∷ waited (render config) ∷ []))
          ⊎ ((e : Error) × (c.start (render config) ≡ some e)
              × (run (render config) ≡ output_to_stdout ∷ must_log_fatal e)))
        × (map words (lines (render config))
            ≡ []
              ∷ ((codes ".:53" ∷ codes "{" ∷ [])
                  ∷ ((settings config ++ ((codes "}" ∷ []) ∷ [])) ++ [] ∷ [])))
        × All (λ ws. is_directive ws ≡ true) (settings config)
  unfolding run loaded_from started
  run-render config writable loads =
      let (reading, directed) = render-read config writable in
      (
        elim (Option-cases (c.start (render config))) [
          | inl fine ↦ inl (fine, rw (loaded-render config, loads (render config), fine) refl)
          | inr (e, failed) ↦
              inr (e, failed, rw (loaded-render config, loads (render config), failed) refl)
        ],
        reading,
        directed,
      )
