-- ===== src/Proxy/Session/Settings.antt =====
-- `startup_settings` of crates/proxy/src/session.rs, with `StartupSettings` of encrypt/mod.rs and
-- `is_on_value` of encrypt/settings.rs: the settings that a startup packet moves.
use dbsec.Prelude.{
  ℕ, zero, suc, ◌<◌, ◌≡◌, refl, Bool, true, false, not, ◌&&◌, ◌||◌, List, [], ◌∷◌, ◌++◌, map,
  is_empty, leb, if◌then◌else◌, length, length-append, take, drop, drop_of_length, ok, err, Bytes,
  bytes_eq, codes, All, arith, le→leb,
}
use dbsec.Pgwire.{startup_header_len}
use dbsec.Pgwire.Cursor.{take_cstr}
use dbsec.Pgwire.Cursor.Laws.{HasNoNul, take_cstr_nul}
use dbsec.Proxy.Arrays.Text.{ascii_lower}

pub record StartupSettings : Type 0 where
  pub search_path_trusted : Bool
  pub escape_strings : Bool

unfoldable pub eq_ignore_ascii_case : Bytes → Bytes → Bool
unfolding ascii_lower
eq_ignore_ascii_case a b = bytes_eq (map ascii_lower a) (map ascii_lower b)

-- `windows` of the setting's length, one of which is it
unfoldable pub mentions : Bytes → Bytes → Bool
unfolding eq_ignore_ascii_case
mentions [] setting = false
mentions (b ∷ options) setting =
    let later = mentions options setting in
    if eq_ignore_ascii_case (take (length setting) (b ∷ options)) setting then true else later

unfoldable pub any_equal : Bytes → List Bytes → Bool
unfolding eq_ignore_ascii_case
any_equal value [] = false
any_equal value (s ∷ spellings) = eq_ignore_ascii_case value s || any_equal value spellings

unfoldable pub is_on_value : Bytes → Bool
unfolding any_equal
is_on_value value =
    any_equal value
      (codes "on" ∷ codes "true" ∷ codes "t" ∷ codes "yes" ∷ codes "y" ∷ codes "1" ∷ [])

-- `is_utf8` is std's check.
module _ (is_utf8 : Bytes → Bool) where
  unfoldable pub is_on : Bytes → Bool
  unfolding is_on_value
  is_on value = is_utf8 value && is_on_value value

  unfoldable pub note_parameter : Bytes → Bytes → StartupSettings → StartupSettings
  note_parameter key value s =
      if eq_ignore_ascii_case key (codes "search_path")
      then record s {
        search_path_trusted = s.search_path_trusted && bytes_eq value (codes "public");
      }
      else if eq_ignore_ascii_case key (codes "standard_conforming_strings")
      then record s { escape_strings = s.escape_strings || not (is_on value) }
      else if eq_ignore_ascii_case key (codes "options")
      then record {
        search_path_trusted = s.search_path_trusted && not (mentions value (codes "search_path"));
        escape_strings = s.escape_strings || mentions value (codes "standard_conforming_strings");
      }
      else s

  -- The loop, on fuel: each round reads at least two terminators.
  unfoldable pub note_parameters : ℕ → Bytes → StartupSettings → StartupSettings
  unfolding note_parameter
  note_parameters zero params s = s
  note_parameters (suc fuel) params s = elim (take_cstr params) [
    | err e ↦ s
    | ok (key, rest) ↦ if is_empty key then s else elim (take_cstr rest) [
      | err e ↦ s
      | ok (value, rest') ↦ note_parameters fuel rest' (note_parameter key value s)
    ]
  ]

  unfoldable pub startup_settings : Bytes → StartupSettings
  unfolding note_parameters
  startup_settings startup =
      let settings : StartupSettings = record {
        search_path_trusted = true;
        escape_strings = false;
      } in
      if leb startup_header_len (length startup)
      then note_parameters (suc (length startup)) (drop startup_header_len startup) settings
      else settings

-- The parameters of a startup packet as a client sends them.
abbrev pub parameters : List (Bytes × Bytes) → Bytes
parameters [] = 0 ∷ []
parameters ((key, value) ∷ ps) = key ++ 0 ∷ (value ++ 0 ∷ parameters ps)

abbrev pub IsParameter : Bytes × Bytes → Type 0
IsParameter (key, value) = (is_empty key ≡ false) × HasNoNul key × HasNoNul value

length-parameters : (ps : List (Bytes × Bytes)) → length ps < length (parameters ps)
length-parameters [] = omega arith
length-parameters ((key, value) ∷ ps) = omega (
  arith,
  length-parameters ps,
  length-append key (0 ∷ (value ++ 0 ∷ parameters ps)),
  length-append value (0 ∷ parameters ps),
)

and_false : (b : Bool) → (b && false) ≡ false
and_false true = refl
and_false false = refl

if_untrusted :
    (b : Bool) (x y : StartupSettings)
    → x.search_path_trusted ≡ false
    → y.search_path_trusted ≡ false
    → (if b then x else y).search_path_trusted ≡ false
if_untrusted true x y h k = h
if_untrusted false x y h k = k

module _ (is_utf8 : Bytes → Bool) where
  noted : List (Bytes × Bytes) → StartupSettings → StartupSettings
  noted [] s = s
  noted ((key, value) ∷ ps) s = noted ps (note_parameter is_utf8 key value s)

  note_parameters-parameters :
      (ps : List (Bytes × Bytes)) (fuel : ℕ) (s : StartupSettings)
      → All IsParameter ps
      → length ps < fuel
      → note_parameters is_utf8 fuel (parameters ps) s ≡ noted ps s
  unfolding note_parameters noted
  note_parameters-parameters ps zero s h l = absurd (omega arith)
  note_parameters-parameters [] (suc fuel) s h l = rw (note_parameters, take_cstr_nul [] [] tt) refl
  note_parameters-parameters ((key, value) ∷ ps) (suc fuel) s h l =
      rw
        (
          note_parameters,
          take_cstr_nul key (value ++ 0 ∷ parameters ps) h.0.1,
          h.0.0,
          take_cstr_nul value (parameters ps) h.0.2,
        )
        (note_parameters-parameters ps fuel (note_parameter is_utf8 key value s) h.1
          (omega (arith, l)))

  note_parameter_untrusted :
      (key value : Bytes) (s : StartupSettings)
      → s.search_path_trusted ≡ false
      → (note_parameter is_utf8 key value s).search_path_trusted ≡ false
  unfolding note_parameter
  note_parameter_untrusted key value s h =
      if_untrusted (eq_ignore_ascii_case key (codes "search_path")) _ _ (rw h refl) (
        if_untrusted (eq_ignore_ascii_case key (codes "standard_conforming_strings")) _ _ h
          (if_untrusted (eq_ignore_ascii_case key (codes "options")) _ _ (rw h refl) h))

  noted_untrusted :
      (ps : List (Bytes × Bytes)) (s : StartupSettings)
      → s.search_path_trusted ≡ false
      → (noted ps s).search_path_trusted ≡ false
  unfolding noted
  noted_untrusted [] s h = h
  noted_untrusted ((key, value) ∷ ps) s h =
      noted_untrusted ps (note_parameter is_utf8 key value s)
        (note_parameter_untrusted key value s h)

  noted-moved :
      (before after : List (Bytes × Bytes)) (key value : Bytes) (s : StartupSettings)
      → eq_ignore_ascii_case key (codes "search_path") ≡ true
      → bytes_eq value (codes "public") ≡ false
      → (noted (before ++ (key, value) ∷ after) s).search_path_trusted ≡ false
  unfolding noted note_parameter
  noted-moved [] after key value s k v =
      noted_untrusted after (note_parameter is_utf8 key value s)
        (rw (note_parameter, k, v) (and_false s.search_path_trusted))
  noted-moved ((k', v') ∷ before) after key value s k v =
      noted-moved before after key value (note_parameter is_utf8 k' v' s) k v

  -- A client whose startup packet sets search_path, in whatever case, to anything but public is not
  -- trusted to read unqualified names as the proxy does, whatever else the packet holds in front of
  -- it or behind. The header has 8 bytes; no key is empty, and no key or value holds a NUL.
  pub startup_settings-moved :
      (header : Bytes) (before after : List (Bytes × Bytes)) (key value : Bytes)
      → length header ≡ startup_header_len
      → All IsParameter (before ++ (key, value) ∷ after)
      → eq_ignore_ascii_case key (codes "search_path") ≡ true
      → bytes_eq value (codes "public") ≡ false
      → (startup_settings is_utf8
          (header ++ parameters (before ++ (key, value) ∷ after))).search_path_trusted
        ≡ false
  unfolding startup_settings
  startup_settings-moved header before after key value l h k v =
      let ps = before ++ (key, value) ∷ after in
      let size = length-append header (parameters ps) in
      let fits : leb startup_header_len (length (header ++ parameters ps)) ≡ true =
        le→leb _ _ (omega (arith, size, l)) in
      rw
        (
          startup_settings,
          fits,
          drop_of_length startup_header_len header (parameters ps) l,
          note_parameters-parameters ps (suc (length (header ++ parameters ps)))
              (record { search_path_trusted = true; escape_strings = false }) h
              (omega (arith, size, length-parameters ps)),
        )
        (noted-moved before after key value _ k v)
