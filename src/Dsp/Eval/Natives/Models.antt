-- ===== src/Dsp/Eval/Natives/Models.antt =====
-- The models that the natives of src/dsp/dsp.cppm build, whatever their arguments are.
use rp4_demo.Base.{
  ℕ, Bool, true, false, Option, none, some, List, [], ◌∷◌, if◌then◌else◌, Text, text_eq, codes,
  Option-cases, inl, inr,
}
use rp4_demo.Dsp.Floats.{Floats}
use rp4_demo.Dsp.Node.{Node}
use rp4_demo.Dsp.Ast.{Expr, Exprs}
use rp4_demo.Dsp.Program.{Env}
use rp4_demo.Dsp.Physical.{Physical, tick_physical, lit}
use rp4_demo.Dsp.Physical.Buffers.{
  Reached, new_plucked, new_bowed, new_flute, new_clarinet, new_modal, ticked, InRange,
  Reached-InRange,
}
use rp4_demo.Dsp.Eval.{Evaluated, gives, calls_native, no_fuel, and_then, Evaluator, lookup}
use rp4_demo.Dsp.Eval.Shapes.{Holds}
use rp4_demo.Dsp.Eval.Natives.{
  Native, graph, model, driven, arg, const_or, node_or, behind, unit, l2s_native, f2l_native,
  guitar, ks, violin, flute_native, clarinet_native, marimba, djembe, natives, unit_of, converted,
}

module _ (fl : Floats) where
  open fl use {Float}

  pub ticks : Physical fl → List (List Float) → Physical fl
  ticks m [] = m
  ticks m (frame ∷ frames) = ticks (tick_physical fl m frame).0 frames

  -- The buffers of the model are in range behind these frames.
  abbrev pub Sound : List (List Float) → Native fl × ℕ → Type 0
  Sound frames (graph n, id) = Unit
  Sound frames (model m, id) = InRange fl (ticks m frames)
  Sound frames (driven n m, id) = InRange fl (ticks m frames)

  -- A property of what each entry of a table gives, and of the entry of a name.
  abbrev pub HoldsAll : {A : Type 0} → (A → Type 0) → List (Text × Evaluated A) → Type 0
  HoldsAll P [] = Unit
  HoldsAll P ((name, r) ∷ table) = Holds P r × HoldsAll P table

  abbrev pub HoldsIf : {A : Type 0} → (A → Type 0) → Option (Evaluated A) → Type 0
  HoldsIf P none = Unit
  HoldsIf P (some r) = Holds P r

  HoldsIf-if :
      {A : Type 0} (P : A → Type 0) (b : Bool) (r : Evaluated A) (o : Option (Evaluated A))
      → Holds P r
      → HoldsIf P o
      → HoldsIf P (if b then some r else o)
  HoldsIf-if P true r o h g = h
  HoldsIf-if P false r o h g = g

  HoldsIf-lookup :
      {A : Type 0} (P : A → Type 0) (name : Text) (table : List (Text × Evaluated A))
      → HoldsAll P table
      → HoldsIf P (lookup name table)
  HoldsIf-lookup P name [] h = tt
  HoldsIf-lookup P name ((m, r) ∷ table) h =
      HoldsIf-if P (text_eq m name) r (lookup name table) h.0 (HoldsIf-lookup P name table h.1)

  Holds-any :
      {A B : Type 0} (Q : B → Type 0) (r : Evaluated A) (k : A → Evaluated B)
      → ((a : A) → Holds Q (k a))
      → Holds Q (and_then r k)
  Holds-any Q (gives a) k next = next a
  Holds-any Q (calls_native name) k next = tt
  Holds-any Q no_fuel k next = tt

  ticks-InRange :
      {sizes : List ℕ} (m : Physical fl) (frames : List (List Float))
      → Reached fl sizes m
      → InRange fl (ticks m frames)
  unfolding ticks
  ticks-InRange {sizes} m [] h = (Reached-InRange fl sizes m h).1
  ticks-InRange m (frame ∷ frames) h =
      ticks-InRange (tick_physical fl m frame).0 frames (ticked frame h)

  module _ (frames : List (List Float)) (ev : Evaluator fl)
      (const : Expr Float → Env Float → Evaluated (Option Float)) (env : Env Float)
      (args : Exprs Float) where
    abbrev at_const : ℕ → Float → Evaluated Float
    at_const k default = const_or fl ev const env args k default

    abbrev Q : Native fl × ℕ → Type 0
    Q = Sound frames

    behind-Sound :
        (i : ℕ) (x : Float) (j : ℕ) (y : Float) (m : Physical fl) (id : ℕ)
        → {sizes : List ℕ} → Reached fl sizes m
        → Holds (Sound frames) (behind fl ev const env args i x j y m id)
    unfolding behind
    behind-Sound i x j y m id {sizes} h = Holds-any Q (node_or fl ev const env args i x id) _ (λ l.
        Holds-any Q (node_or fl ev const env args j y l.1) _ (λ r. (ticks-InRange m frames h)))

    converted-Sound :
        (convert : Float → Float) (other : Node fl) (id : ℕ) (x : Expr Float) (cv : Option Float)
        → Holds (Sound frames) (converted fl ev const env args convert other id x cv)
    unfolding converted
    converted-Sound convert other id x (some v) = tt
    converted-Sound convert other id x none = Holds-any Q (ev x env id) _ (λ n. tt)

    unit_of-Sound :
        (convert : Float → Float) (other : Node fl) (id : ℕ) (o : Option (Expr Float))
        → Holds (Sound frames) (unit_of fl ev const env args convert other id o)
    unfolding unit_of
    unit_of-Sound convert other id none = tt
    unit_of-Sound convert other id (some x) =
        Holds-any Q (const x env) _ (λ cv. converted-Sound convert other id x cv)

    guitar-Sound :
        (sr ppos damping : Float) (id : ℕ)
        → Holds (Sound frames) (guitar fl ev const env args sr ppos damping id)
    unfolding guitar
    guitar-Sound sr ppos damping id = Holds-any Q (at_const 0 (lit fl (codes "0.65"))) _ (λ slen.
        Holds-any Q (at_const 1 ppos) _
          (λ pos. behind-Sound _ _ _ _ _ id (new_plucked slen sr damping)))

    ks-Sound : (sr : Float) (id : ℕ) → Holds (Sound frames) (ks fl ev const env args sr id)
    unfolding ks
    ks-Sound sr id = Holds-any Q (at_const 0 (lit fl (codes "0.65"))) _ (λ slen.
        Holds-any Q (at_const 1 (lit fl (codes "0.5"))) _
          (λ damp. (ticks-InRange _ frames (new_plucked slen sr damp))))

    violin-Sound : (sr : Float) (id : ℕ) → Holds (Sound frames) (violin fl ev const env args sr id)
    unfolding violin
    violin-Sound sr id = Holds-any Q (at_const 0 (lit fl (codes "0.5"))) _ (λ slen.
        Holds-any Q (at_const 3 (lit fl (codes "0.12"))) _
          (λ bpos. behind-Sound _ _ _ _ _ id (new_bowed slen sr bpos)))

    flute_native-Sound :
        (sr : Float) (id : ℕ) → Holds (Sound frames) (flute_native fl ev const env args sr id)
    unfolding flute_native
    flute_native-Sound sr id = Holds-any Q (at_const 0 (lit fl (codes "0.5"))) _ (λ tlen.
        Holds-any Q (at_const 1 (lit fl (codes "0.2"))) _
          (λ mpos. behind-Sound _ _ _ _ _ id (new_flute tlen sr mpos)))

    clarinet_native-Sound :
        (sr : Float) (id : ℕ) → Holds (Sound frames) (clarinet_native fl ev const env args sr id)
    unfolding clarinet_native
    clarinet_native-Sound sr id =
        Holds-any Q (at_const 0 (lit fl (codes "0.5"))) _
          (λ tlen. behind-Sound _ _ _ _ _ id (new_clarinet tlen sr))

    marimba-Sound :
        (sr : Float) (id : ℕ) → Holds (Sound frames) (marimba fl ev const env args sr id)
    unfolding marimba
    marimba-Sound sr id = Holds-any Q (at_const 0 (lit fl (codes "440"))) _ (λ freq.
        elim (Option-cases (arg fl 5 args)) [
          | inl e ↦ rw e (behind-Sound _ _ _ _ _ id (new_modal freq sr _))
          | inr (x, e) ↦ rw e (behind-Sound _ _ _ _ _ id (new_modal freq sr _))
        ])

    djembe-Sound : (sr : Float) (id : ℕ) → Holds (Sound frames) (djembe fl ev const env args sr id)
    unfolding djembe
    djembe-Sound sr id =
        Holds-any Q (at_const 0 (lit fl (codes "60"))) _
          (λ freq. behind-Sound _ _ _ _ _ id (new_modal freq sr _))

  -- Whatever the name, the arguments and the scope are, and whatever eval and try_const_eval answer: where a
  -- native builds a tree with a model, the model's buffers are in range behind any frames.
  pub lookup-natives :
      (frames : List (List Float)) (ev : Evaluator fl)
      (const : Expr Float → Env Float → Evaluated (Option Float)) (env : Env Float)
      (args : Exprs Float) (name : Text) (sr : Float) (id : ℕ)
      → HoldsIf (Sound frames) (lookup name (natives fl ev const env args sr id))
  unfolding natives l2s_native f2l_native unit
  lookup-natives frames ev const env args name sr id =
      HoldsIf-lookup (Sound frames) name (natives fl ev const env args sr id) (
        unit_of-Sound frames ev const env args _ _ id (arg fl 0 args),
        (
          unit_of-Sound frames ev const env args _ _ id (arg fl 0 args),
          (
            guitar-Sound frames ev const env args sr _ _ id,
            (
              guitar-Sound frames ev const env args sr _ _ id,
              (
                ks-Sound frames ev const env args sr id,
                (
                  violin-Sound frames ev const env args sr id,
                  (
                    flute_native-Sound frames ev const env args sr id,
                    (
                      clarinet_native-Sound frames ev const env args sr id,
                      (
                        marimba-Sound frames ev const env args sr id,
                        (djembe-Sound frames ev const env args sr id, tt),
                      ),
                    ),
                  ),
                ),
              ),
            ),
          ),
        ),
      )
