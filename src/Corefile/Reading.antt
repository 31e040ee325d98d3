-- ===== src/Corefile/Reading.antt =====
-- What a reader of the rendered configuration finds, line by line and word by word.
use mathlib.Core.List.{map-append}
use k8s_dns_manager.Prelude.{
  suc, ◌≡◌, refl, ap, ◌∙◌, Bool, true, false, not, List, [], ◌∷◌, ◌++◌, Text, codes, All, All-map,
  All-append, arith, is_empty, map, all, any, ◌==◌, text_eq, if◌then◌else◌,
}
use k8s_dns_manager.GoStrings.{decimal}
use k8s_dns_manager.GoStrings.Laws.{IsDigit, decimal-IsDigit, decimal-filled}
use k8s_dns_manager.Corefile.{
  ℤ, pos, negsuc, int_text, is_set, Config, addresses, line_if, block, broken, render, loaded,
  directives,
}
use k8s_dns_manager.Corefile.Words.{
  words_from, lines, words, IsLine, IsSolid, IsWord, IsLine-test, IsSolid-IsLine, lines_from-broken,
  words-word, words-blank,
}

-- The words of the settings that a configuration asks for, a list for each.
unfoldable pub settings : Config → List (List Text)
settings c =
    (codes "k8s_dns" ∷ line_if (not (is_empty c.external_address)) c.external_address)
    ∷ (line_if c.any (codes "any" ∷ [])
        ++ (line_if (not (is_empty c.forward)) (codes "forward" ∷ codes "." ∷ c.forward)
            ++ (line_if (is_set c.cache) (codes "cache" ∷ int_text c.cache ∷ [])
                ++ (line_if c.log (codes "log" ∷ [])
                    ++ (line_if c.errors (codes "errors" ∷ [])
                        ++ line_if c.metrics (codes "prometheus" ∷ codes "0.0.0.0:9153" ∷ []))))))

-- The external address has no blank or line break, and every forward server is a word.
pub record IsWritable (c : Config) : Type 0 where
  pub address : IsSolid c.external_address
  pub servers : All IsWord c.forward

digits-IsSolid : (t : Text) → All IsDigit t → IsSolid t
digits-IsSolid t = All-map t λ c h. (ground (arith, h.0, h.1), λ e. omega (arith, h.0, h.1, e))

int_text-IsWord : (n : ℤ) → IsWord (int_text n)
int_text-IsWord (pos n) = (decimal-filled n, digits-IsSolid (decimal n) (decimal-IsDigit n))
int_text-IsWord (negsuc n) = (
  refl,
  ((refl, λ e. omega (arith, e)), digits-IsSolid (decimal (suc n)) (decimal-IsDigit (suc n))),
)

addresses-IsLine : (vs : List Text) → All IsWord vs → IsLine (addresses vs)
unfolding addresses
addresses-IsLine [] h = tt
addresses-IsLine (v ∷ vs) h =
    All-append _ v (b' ' ∷ addresses vs) (IsSolid-IsLine v h.0.1)
      ((λ e. omega (arith, e)), addresses-IsLine vs h.1)

words-addresses : (vs : List Text) → All IsWord vs → words (addresses vs) ≡ vs
unfolding addresses words_from
words-addresses [] h = refl
words-addresses (v ∷ vs) h =
    words-blank v (addresses vs) h.0 ∙ ap (λ r. v ∷ r) (words-addresses vs h.1)

-- A line reads as the words `ws`.
Reads : Text → List Text → Type 0
Reads l ws = IsLine l × (words l ≡ ws)

-- The lines `ls` read as `wss`.
AllRead : List Text → List (List Text) → Type 0
AllRead ls wss = All IsLine ls × (map words ls ≡ wss)

AllRead-append :
    (ls : List Text) (wss : List (List Text)) (ms : List Text) (vss : List (List Text))
    → AllRead ls wss
    → AllRead ms vss
    → AllRead (ls ++ ms) (wss ++ vss)
unfolding AllRead
AllRead-append ls wss ms vss h k =
    (All-append _ ls ms h.0 k.0, map-append words ls ms ∙ cc (h.1, k.1))

-- A line under a condition reads when the line itself does.
AllRead-line_if :
    (test : Bool) (l : Text) (ws : List Text)
    → (test ≡ true → Reads l ws)
    → AllRead (line_if test l) (line_if test ws)
unfolding AllRead Reads
AllRead-line_if true l ws h = (((h refl).0, tt), cc ((h refl).1))
AllRead-line_if false l ws h = (tt, refl)

-- A line of fixed text.
Reads-literal :
    (l : Text) (ws : List Text) → all (λ c. not (c == b'\n')) l ≡ true → words l ≡ ws → Reads l ws
unfolding Reads
Reads-literal l ws h e = (IsLine-test l h, e)

Reads-k8s_dns :
    (address : Text)
    → IsSolid address
    → Reads
        (codes "\tk8s_dns" ++ (if is_empty address then [] else b' ' ∷ address))
        (codes "k8s_dns" ∷ line_if (not (is_empty address)) address)
unfolding Reads words_from
Reads-k8s_dns [] h = (IsLine-test (codes "\tk8s_dns") refl, refl)
Reads-k8s_dns (c ∷ t) h = (
  All-append _ (codes "\tk8s_dns ") (c ∷ t) (IsLine-test (codes "\tk8s_dns ") refl)
      (IsSolid-IsLine (c ∷ t) h),
  ap (λ r. codes "k8s_dns" ∷ r) (words-word (c ∷ t) (refl, h)),
)

Reads-forward :
    (vs : List Text)
    → All IsWord vs
    → Reads (codes "\tforward . " ++ addresses vs) (codes "forward" ∷ codes "." ∷ vs)
unfolding Reads words_from
Reads-forward vs h = (
  All-append _ (codes "\tforward . ") _ (IsLine-test (codes "\tforward . ") refl)
      (addresses-IsLine vs h),
  ap (λ r. codes "forward" ∷ codes "." ∷ r) (words-addresses vs h),
)

Reads-cache : (n : ℤ) → Reads (codes "\tcache " ++ int_text n) (codes "cache" ∷ int_text n ∷ [])
unfolding Reads words_from
Reads-cache n = (
  All-append _ (codes "\tcache ") _ (IsLine-test (codes "\tcache ") refl)
      (IsSolid-IsLine _ (int_text-IsWord n).1),
  ap (λ r. codes "cache" ∷ r) (words-word (int_text n) (int_text-IsWord n)),
)

block-read : (c : Config) → IsWritable c → AllRead (block c) (settings c)
unfolding block settings words_from
block-read c h =
    AllRead-append (_ ∷ []) (_ ∷ []) _ _
      (AllRead-line_if true _ _ λ _. Reads-k8s_dns c.external_address h.address)
      (AllRead-append _ _ _ _
        (AllRead-line_if c.any (codes "\tany") _ λ _. Reads-literal (codes "\tany") _ refl refl)
        (AllRead-append _ _ _ _ (AllRead-line_if _ _ _ λ _. Reads-forward c.forward h.servers) (
          AllRead-append _ _ _ _ (AllRead-line_if _ _ _ λ _. Reads-cache c.cache) (
            AllRead-append _ _ _ _
              (AllRead-line_if _ _ _ λ _. Reads-literal (codes "\tlog") _ refl refl)
              (AllRead-append _ _ _ _
                (AllRead-line_if _ _ _ λ _. Reads-literal (codes "\terrors") _ refl refl)
                (AllRead-line_if _ _ _
                  λ _. Reads-literal (codes "\tprometheus 0.0.0.0:9153") _ refl refl))))))

-- The first word of a setting is a directive that the server knows.
abbrev pub is_directive : List Text → Bool
is_directive [] = false
is_directive (w ∷ ws) = any (text_eq w) directives

abbrev AreDirectives : List (List Text) → Type 0
AreDirectives = All λ ws. is_directive ws ≡ true

line_if-AreDirectives :
    (test : Bool) (ws : List Text) → is_directive ws ≡ true → AreDirectives (line_if test ws)
line_if-AreDirectives true ws h = (h, tt)
line_if-AreDirectives false ws h = tt

settings-AreDirectives : (c : Config) → AreDirectives (settings c)
unfolding settings text_eq
settings-AreDirectives c = (
  refl,
  All-append _ _ _ (line_if-AreDirectives c.any _ refl) (
      All-append _ _ _ (line_if-AreDirectives (not (is_empty c.forward)) _ refl) (
        All-append _ _ _ (line_if-AreDirectives (is_set c.cache) _ refl) (
          All-append _ _ _ (line_if-AreDirectives c.log _ refl) (
            All-append _ _ _ (line_if-AreDirectives c.errors _ refl)
              (line_if-AreDirectives c.metrics _ refl))))),
)

-- Read line by line and word by word, the rendered configuration is one server block for port 53,
-- in which each setting that is asked for stands on a line of its own with its arguments, in the
-- order of the template, when the external address has no blank or line break and no forward
-- server has one or is empty; every setting begins with a directive of the server's list.
pub render-read :
    (c : Config)
    → IsWritable c
    → (map words (lines (render c))
        ≡ []
          ∷ ((codes ".:53" ∷ codes "{" ∷ [])
              ∷ ((settings c ++ ((codes "}" ∷ []) ∷ [])) ++ [] ∷ [])))
      × All (λ ws. is_directive ws ≡ true) (settings c)
unfolding render AllRead words_from
render-read c h =
    let here =
      AllRead-append (block c) (settings c) (codes "}" ∷ []) _ (block-read c h)
        (AllRead-line_if true _ _ λ _. Reads-literal (codes "}") _ refl refl) in
    (
      ap (map words) (
            lines_from-broken [] (codes ".:53 {" ∷ (block c ++ codes "}" ∷ []))
              (IsLine-test (codes ".:53 {") refl, here.0))
          ∙ ap (λ r. [] ∷ ((codes ".:53" ∷ codes "{" ∷ []) ∷ r))
              (map-append words (block c ++ codes "}" ∷ []) ([] ∷ [])
                ∙ ap (λ r. r ++ [] ∷ []) here.1),
      settings-AreDirectives c,
    )

-- Caddy is handed the configuration that Run was called with, since no rendered configuration is
-- empty.
pub loaded-render : (c : Config) → loaded (render c) ≡ render c
unfolding loaded render broken text_eq
loaded-render c = refl
