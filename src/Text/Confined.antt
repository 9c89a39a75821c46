-- ===== src/Text/Confined.antt =====
-- A path that zupt_path_is_safe accepts stays below the directory that it is extracted to.
use libvuptsdk.Common.{
  not-true, ℕ, zero, suc, ◌≤◌, ◌<◌, ◌≡◌, ◌∙◌, sym, ap, ◌⊎◌, inl, inr, refl, arith, List, [], ◌∷◌,
  ◌++◌, append_assoc, append-nil, Bool, true, false, ◌&&◌, ◌||◌, not, Option, some, none, leb, ◌==◌,
  if◌then◌else◌, Bool-cases, length, get_or, All, and_left, and_right, or_left, or_right, leb-false,
}
use libvuptsdk.Text.{
  is_separator, component_is_safe, component_scan, path_is_safe, has_byte, path_has_unsafe_text,
  max_path,
}

-- What stands between the separators, first to last; there is one more than separators.
abbrev prepend : ℕ → List (List ℕ) → List (List ℕ)
prepend c [] = (c ∷ []) ∷ []
prepend c (d ∷ ds) = (c ∷ d) ∷ ds

unfoldable pub components : List ℕ → List (List ℕ)
components [] = [] ∷ []
components (c ∷ cs) =
    let rest = components cs in if is_separator c then [] ∷ rest else prepend c rest

abbrev pub is_dot : List ℕ → Bool
is_dot c = length c == 1 && get_or c 0 0 == 0x2e

abbrev pub is_dot_dot : List ℕ → Bool
is_dot_dot c = length c == 2 && (get_or c 0 0 == 0x2e && get_or c 1 0 == 0x2e)

-- The depth that a walk of the components reaches, as the file system resolves them: an empty one
-- and `.` stay, `..` goes up, and a name goes down. none is a walk that leaves by the top.
unfoldable pub resolve : List (List ℕ) → ℕ → Option ℕ
resolve [] depth = some depth
resolve ([] ∷ cs) depth = resolve cs depth
resolve ((b ∷ bs) ∷ cs) depth = elim (is_dot (b ∷ bs)) [
  | true ↦ resolve cs depth
  | false ↦ elim (is_dot_dot (b ∷ bs)) [
    | false ↦ resolve cs (suc depth)
    | true ↦ elim depth [ zero ↦ none | suc up ↦ resolve cs up ]
  ]
]

abbrev pub IsName : List ℕ → Type 0
IsName c = (c ≡ []) ⊎ (component_is_safe c ≡ true)

pub record Walk (cs : List (List ℕ)) (depth : ℕ) : Type 0 where
  pub reached : ℕ
  pub walked : resolve cs depth ≡ some reached
  pub deeper : depth < reached
  pub names : All IsName cs

abbrev extend : List ℕ → List (List ℕ) → List (List ℕ)
extend component [] = component ∷ []
extend component (d ∷ ds) = (component ++ d) ∷ ds

extend-components : (cs : List ℕ) → extend [] (components cs) ≡ components cs
unfolding components
extend-components [] = refl
extend-components (c ∷ cs) = elim (Bool-cases (is_separator c)) [
  | inl here ↦ rw here refl
  | inr other ↦ rw other (extend-nil_prepend (components cs))
]
  where
    extend-nil_prepend : (ds : List (List ℕ)) → extend [] (prepend c ds) ≡ prepend c ds
    extend-nil_prepend [] = refl
    extend-nil_prepend (d ∷ ds) = refl

extend-prepend :
    (component : List ℕ) (c : ℕ) (cs : List (List ℕ))
    → extend component (prepend c cs) ≡ extend (component ++ (c ∷ [])) cs
extend-prepend component c [] = refl
extend-prepend component c (d ∷ ds) = ap (λ x. x ∷ ds) (sym (append_assoc component (c ∷ []) d))

resolve-name :
    (b : ℕ) (bs : List ℕ) (cs : List (List ℕ)) (depth : ℕ)
    → component_is_safe (b ∷ bs) ≡ true
    → resolve ((b ∷ bs) ∷ cs) depth ≡ resolve cs (suc depth)
unfolding component_is_safe resolve
resolve-name b bs cs depth h =
    let neither : (is_dot (b ∷ bs) || is_dot_dot (b ∷ bs)) ≡ false =
      not-true (is_dot (b ∷ bs) || is_dot_dot (b ∷ bs))
        (and_left (not (is_dot (b ∷ bs) || is_dot_dot (b ∷ bs))) _ h) in
    rw (or_left (is_dot (b ∷ bs)) _ neither, or_right (is_dot (b ∷ bs)) _ neither, resolve) refl

resolve-nil : (depth : ℕ) → resolve [] depth ≡ some depth
unfolding resolve
resolve-nil depth = refl

arrive :
    (b : ℕ) (bs : List ℕ) (cs : List (List ℕ)) (depth reached : ℕ)
    → component_is_safe (b ∷ bs) ≡ true
    → resolve cs (suc depth) ≡ some reached
    → suc depth ≤ reached
    → All IsName cs
    → Walk ((b ∷ bs) ∷ cs) depth
arrive b bs cs depth reached safe h far names = record {
  reached = reached;
  walked = resolve-name b bs cs depth safe ∙ h;
  deeper = omega arith;
  names = (inr safe, names);
}

-- A separator ends the component.
ended :
    (cs component : List ℕ) (depth : ℕ)
    → (if length component == 0
        then component_scan cs []
        else component_is_safe component && component_scan cs [])
      ≡ true
    → ((d : ℕ) → component_scan cs [] ≡ true → Walk (components cs) d)
    → Walk ((component ++ []) ∷ components cs) depth
unfolding resolve
ended cs [] depth h k =
    let rest = k depth h in
    record {
      reached = rest.reached;
      walked = rest.walked;
      deeper = rest.deeper;
      names = (inl refl, rest.names);
    }
ended cs (b ∷ bs) depth h k =
    let both : (component_is_safe (b ∷ bs) && component_scan cs []) ≡ true = ground (arith, h) in
    let rest = k (suc depth) (and_right (component_is_safe (b ∷ bs)) _ both) in
    rw (append-nil bs) (
      arrive b bs (components cs) depth rest.reached (and_left (component_is_safe (b ∷ bs)) _ both)
        rest.walked (omega (arith, rest.deeper)) rest.names)

Walk-scan :
    (rest component : List ℕ) (depth : ℕ)
    → component_scan rest component ≡ true
    → Walk (extend component (components rest)) depth
unfolding component_scan components
Walk-scan [] [] depth h = cc
Walk-scan [] (b ∷ bs) depth h =
    let safe : component_is_safe (b ∷ bs) ≡ true = ground (arith, h) in
    rw (append-nil bs)
      (arrive b bs [] depth (suc depth) safe (resolve-nil (suc depth)) (omega arith) tt)
Walk-scan (c ∷ cs) component depth h = elim (Bool-cases (is_separator c)) [
  | inl here ↦ rw here (
      ended cs component depth (rw (here, component_scan) at h)
        (λ d rest. rw (sym (extend-components cs)) (Walk-scan cs [] d rest)))
  | inr other ↦
      rw (other, extend-prepend component c (components cs))
        (Walk-scan cs (component ++ (c ∷ [])) depth (rw (other, component_scan) at h))
]

-- A guard that was passed.
unless {ℓ} :
    {P : Type ℓ} (bad rest : Bool)
    → (if bad then false else rest) ≡ true
    → (bad ≡ false → rest ≡ true → P)
    → P
unless true rest h k = cc
unless false rest h k = k refl h

pub record IsConfined (path : List ℕ) : Type 0 where
  pub relative : is_separator (get_or path 0 0) ≡ false
  pub no_colon : has_byte 0x3a path ≡ false
  pub short : length path < max_path
  pub walk : Walk (components path) 0

-- An accepted path is relative, shorter than the limit and without a colon; each of its components
-- is empty or passes the tests of a component; and from the directory that it is extracted to, the
-- walk of its components never leaves by the top and ends strictly below.
pub path_is_safe-IsConfined : (path : List ℕ) → path_is_safe path ≡ true → IsConfined path
unfolding path_is_safe
path_is_safe-IsConfined path h = unless (length path == 0) _ h (λ some_there h1.
    unless (leb max_path (length path)) _ h1 (λ short h2.
      unless (path_has_unsafe_text path) _ h2 (λ text h3.
        unless (is_separator (get_or path 0 0)) _ h3 (λ relative h4.
          unless (has_byte 0x3a path) _ h4 (λ no_colon h5. record {
            relative = relative;
            no_colon = no_colon;
            short = leb-false max_path (length path) short;
            walk = rw (sym (extend-components path)) (Walk-scan path [] 0 h5);
          })))))
