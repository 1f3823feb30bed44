-- ===== src/Noarch/Replaced.antt =====
-- The rows of a task after its round in save_noarch_packages (alws/utils/noarch.py).
use albs_web_server.Prelude.{
  ℕ, String, true, false, List, [], ◌∷◌, Option, none, some, lookup, lookup-remove_key_self,
  lookup-remove_key_ne, ◌==◌, nat_eq, string_eq, eq_of_==, ◌≡◌, refl, sym, ap, ◌∙◌, ◌⊎◌, inl, inr,
  Memᴰ, mem_cons-cases, Bool-cases,
}
use albs_web_server.BuildNode.Db.{BuildTaskArtifact}
use albs_web_server.Noarch.{Packages, Replacing, replace_from, replace_artifact, replace_artifacts}

-- Among the rows is one of the task with the name and the address.
abbrev pub HasPackage : ℕ → String → String → List BuildTaskArtifact → Type 0
HasPackage task_id name href rows =
    (a : BuildTaskArtifact) × Memᴰ a rows
    × (a.build_task_id ≡ task_id)
    × (a.name ≡ name)
    × (a.href ≡ href)

replace_from-found :
    (packages : Packages) (a : BuildTaskArtifact) {found : String × Option String}
    → lookup a.name packages ≡ some found
    → replace_from packages a ≡ record a { href = found.0; cas_hash = found.1 }
unfolding replace_from
replace_from-found packages a h = rw (h, replace_from)

replace_from-missing :
    (packages : Packages) (a : BuildTaskArtifact)
    → lookup a.name packages ≡ none
    → replace_from packages a ≡ a
unfolding replace_from
replace_from-missing packages a h = rw (h, replace_from)

replace_artifacts-mine :
    (task_id : ℕ) (r : Replacing) (row : BuildTaskArtifact) (rows : List BuildTaskArtifact)
    → (row.build_task_id == task_id) ≡ true
    → replace_artifacts task_id r (row ∷ rows) ≡ (
      (replace_artifact r row).0 ∷ (replace_artifacts task_id (replace_artifact r row).1 rows).0,
      (replace_artifacts task_id (replace_artifact r row).1 rows).1,
    )
unfolding replace_artifacts
replace_artifacts-mine task_id r row rows mine = rw (mine, replace_artifacts)

replace_artifacts-other :
    (task_id : ℕ) (r : Replacing) (row : BuildTaskArtifact) (rows : List BuildTaskArtifact)
    → (row.build_task_id == task_id) ≡ false
    → replace_artifacts task_id r (row ∷ rows)
      ≡ (row ∷ (replace_artifacts task_id r rows).0, (replace_artifacts task_id r rows).1)
unfolding replace_artifacts
replace_artifacts-other task_id r row rows other = rw (other, replace_artifacts)

module _ (name : String) (found : String × Option String) where
  -- The name still has the address, or none; and it is no name of a debug package.
  abbrev pub Agrees : Replacing → Type 0
  Agrees r =
      ((lookup name r.noarch ≡ some found) ⊎ (lookup name r.noarch ≡ none))
      × (lookup name r.debug ≡ none)

  still_there :
      (r : Replacing) (a : BuildTaskArtifact)
      → (name == a.name) ≡ false
      → lookup name r.noarch ≡ some found
      → lookup name (replace_artifact r a).1.noarch ≡ some found
  unfolding replace_artifact
  still_there r a other has = lookup-remove_key_ne a.name name r.noarch other ∙ has

  replace_artifact-Agrees :
      (r : Replacing) (a : BuildTaskArtifact) → Agrees r → Agrees (replace_artifact r a).1
  unfolding replace_artifact
  replace_artifact-Agrees r a (noarch, debug) = elim (Bool-cases (name == a.name)) [
    | inl same ↦
        let e = eq_of_== name a.name same in
        (
          inr (rw e (lookup-remove_key_self a.name r.noarch)),
          rw e (lookup-remove_key_self a.name r.debug),
        )
    | inr other ↦
        let keeps = lookup-remove_key_ne a.name name r.noarch other in
        (
          elim noarch [ inl h ↦ inl (keeps ∙ h) | inr h ↦ inr (keeps ∙ h) ],
          lookup-remove_key_ne a.name name r.debug other ∙ debug,
        )
  ]

  -- A row of the name gets the address, if it still waits for it, and keeps it otherwise.
  replaced_row :
      (r : Replacing) (a : BuildTaskArtifact)
      → Agrees r
      → a.name ≡ name
      → ((lookup name r.noarch ≡ some found) ⊎ (a.href ≡ found.0))
      → ((replace_artifact r a).0.build_task_id ≡ a.build_task_id)
        × ((replace_artifact r a).0.name ≡ name)
        × ((replace_artifact r a).0.href ≡ found.0)
  unfolding replace_artifact
  replaced_row r a (noarch, debug) same h =
      let moved = λ (packages : Packages). ap (λ n. lookup n packages) same in
      elim noarch [
        | inl has ↦
            let b : BuildTaskArtifact = record a { href = found.0; cas_hash = found.1 } in
            let whole =
              ap (replace_from r.debug) (replace_from-found r.noarch a (moved r.noarch ∙ has))
              ∙ replace_from-missing r.debug b (moved r.debug ∙ debug) in
            (
              ap (λ (x : BuildTaskArtifact). x.build_task_id) whole,
              ap (λ (x : BuildTaskArtifact). x.name) whole ∙ same,
              ap (λ (x : BuildTaskArtifact). x.href) whole,
            )
        | inr hasnt ↦
            let whole =
              ap (replace_from r.debug) (replace_from-missing r.noarch a (moved r.noarch ∙ hasnt))
              ∙ replace_from-missing r.debug a (moved r.debug ∙ debug) in
            (
              ap (λ (x : BuildTaskArtifact). x.build_task_id) whole,
              ap (λ (x : BuildTaskArtifact). x.name) whole ∙ same,
              ap (λ (x : BuildTaskArtifact). x.href) whole
                  ∙ elim h [ inl has ↦ cc (has, hasnt) | inr already ↦ already ],
            )
      ]

  weaken :
      {task_id : ℕ} {a : BuildTaskArtifact} {rows : List BuildTaskArtifact}
      → HasPackage task_id name found.0 rows
      → HasPackage task_id name found.0 (a ∷ rows)
  weaken (b, m, t, n, h) = (b, Memᴰ.tail m, t, n, h)

  -- The loop keeps a row that has the address already, of whatever task.
  pub replace_artifacts-keeps :
      (task_id other : ℕ) (r : Replacing) (rows : List BuildTaskArtifact)
      → Agrees r
      → HasPackage other name found.0 rows
      → HasPackage other name found.0 (replace_artifacts task_id r rows).0
  replace_artifacts-keeps task_id other r [] agrees (a, m, _, _, _) = elim m [ ]
  replace_artifacts-keeps task_id other r (row ∷ rows) agrees (a, m, its, named, there) =
      elim (Bool-cases (row.build_task_id == task_id)) [
        | inl mine ↦ rw (replace_artifacts-mine task_id r row rows mine) (elim (mem_cons-cases m) [
          | inl here ↦
              let (t, n, h) =
                replaced_row r row agrees
                  (ap (λ (x : BuildTaskArtifact). x.name) (sym here) ∙ named)
                  (inr (ap (λ (x : BuildTaskArtifact). x.href) (sym here) ∙ there)) in
              (
                (replace_artifact r row).0,
                Memᴰ.head refl,
                t ∙ ap (λ (x : BuildTaskArtifact). x.build_task_id) (sym here) ∙ its,
                n,
                h,
              )
          | inr later ↦ weaken (
              replace_artifacts-keeps task_id other (replace_artifact r row).1 rows
                (replace_artifact-Agrees r row agrees) (a, later, its, named, there))
        ])
        | inr another ↦
            rw (replace_artifacts-other task_id r row rows another) (elim (mem_cons-cases m) [
              | inl here ↦ (a, Memᴰ.head here, its, named, there)
              | inr later ↦ weaken (
                  replace_artifacts-keeps task_id other r rows agrees (a, later, its, named, there))
            ])
      ]

  -- After the loop a row of the task has the address, or the package is still to be created.
  pub replace_artifacts-cases :
      (task_id : ℕ) (r : Replacing) (rows : List BuildTaskArtifact)
      → Agrees r
      → lookup name r.noarch ≡ some found
      → HasPackage task_id name found.0 (replace_artifacts task_id r rows).0
        ⊎ (lookup name (replace_artifacts task_id r rows).1.noarch ≡ some found)
          × (lookup name (replace_artifacts task_id r rows).1.debug ≡ none)
  replace_artifacts-cases task_id r [] agrees has =
      inr (unfold replace_artifacts in (has, agrees.1))
  replace_artifacts-cases task_id r (row ∷ rows) agrees has =
      elim (Bool-cases (row.build_task_id == task_id)) [
        | inr another ↦
            rw (replace_artifacts-other task_id r row rows another)
              (elim (replace_artifacts-cases task_id r rows agrees has) [
                | inl there ↦ inl (weaken there)
                | inr left ↦ inr left
              ])
        | inl mine ↦
            rw (replace_artifacts-mine task_id r row rows mine)
              (elim (Bool-cases (name == row.name)) [
                | inl same ↦
                    let (t, n, h) =
                      replaced_row r row agrees (sym (eq_of_== name row.name same)) (inl has) in
                    inl (
                      (replace_artifact r row).0,
                      Memᴰ.head refl,
                      t ∙ eq_of_== row.build_task_id task_id mine,
                      n,
                      h,
                    )
                | inr differs ↦
                    elim (replace_artifacts-cases task_id (replace_artifact r row).1 rows
                      (replace_artifact-Agrees r row agrees) (still_there r row differs has)) [
                        | inl there ↦ inl (weaken there)
                        | inr left ↦ inr left
                      ]
              ])
      ]
