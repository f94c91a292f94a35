-- ===== src/Dependencies/Layers.antt =====
-- A resolver behaves as a stack of dictionaries over one resolver without any.
use pyrpckit.Prelude.{List, Result, [], arith, none, ok, refl, some, ℕ, ◌∙◌, ◌∷◌, ◌≡◌}
use pyrpckit.Connection.Rejection.{Exception}
use pyrpckit.Dependencies.{
  Context, Resolver, Values, call_scope, connected, connection_scope, context_resolver,
  context_values, empty_resolver, function_resolver, object_resolver, over, resolve, value_of,
}

module _ {V : Type 0} where
  -- The contexts of a resolver, the outermost first, and what stands below them.
  unfoldable pub layers : Resolver V → List (Values V)
  layers (context_resolver inner values) = values ∷ layers inner
  layers resolver = []

  unfoldable pub bottom : Resolver V → Resolver V
  bottom (context_resolver inner values) = bottom inner
  bottom resolver = resolver

  -- The documented meaning: the first dictionary that has the dependency, and otherwise the resolver
  -- below them.
  unfoldable pub layered : List (Values V) → (ℕ → Result Exception V) → ℕ → Result Exception V
  layered [] below dependency = below dependency
  layered (values ∷ more) below dependency =
      let deeper = layered more below dependency in
      elim (value_of dependency values) [ some value ↦ ok value | none ↦ deeper ]

  scoped-layered :
      (r : Resolver V) (dependency : ℕ)
      → resolve (call_scope r) dependency
        ≡ layered (layers r) (resolve (call_scope (bottom r))) dependency
  unfolding layers bottom layered resolve call_scope
  scoped-layered empty_resolver d = refl
  scoped-layered (function_resolver f) d = refl
  scoped-layered (object_resolver f scope connect) d = refl
  scoped-layered (context_resolver inner values) d = ground (arith, scoped-layered inner d)

  over-resolve :
      (r : Resolver V) (values : Values V) (d : ℕ)
      → resolve (call_scope (over r values)) d ≡ layered (values ∷ []) (resolve (call_scope r)) d
  unfolding layered resolve call_scope value_of
  over-resolve r [] d = refl
  over-resolve r (entry ∷ values) d = refl

  -- A call on a connection resolves a dependency to the value that the connection's context holds
  -- for it; a dependency that the context lacks, to the first value in the contexts that were put
  -- over the connection's resolver; and every other one by that resolver, in the scope of the call.
  pub call-layered :
      (resolver : Resolver V) (context : Context V) (dependency : ℕ)
      → let below = connected resolver (context_values context) in
        resolve (call_scope (connection_scope resolver context)) dependency
        ≡ layered
            (context_values context ∷ layers below)
            (resolve (call_scope (bottom below)))
            dependency
  unfolding connection_scope layered
  call-layered resolver context d =
      let below = connected resolver (context_values context) in
      over-resolve below (context_values context) d
      ∙ (unfold layered in ground (arith, scoped-layered below d))
