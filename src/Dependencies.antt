-- ===== src/Dependencies.antt =====
-- rpckit/dependencies.py: resolvers, and the context values that stand before them. A dependency is
-- a class, known by a number; `V` is the type of Python values. A context manager is the resolver
-- that it yields: what its exit does is the resolver's own affair.
pub mod Layers
pub mod Parameters
mod Tests
use pyrpckit.Prelude.{
  List, Option, Result, [], err, if◌then◌else◌, none, ok, some, ℕ, ◌==◌, ◌>>=◌, ◌∷◌,
}
use pyrpckit.Connection.Rejection.{Exception, plain}

-- `dict[type, object]`, with one entry for a key.
abbrev pub Values : Type 0 → Type 0
Values V = List (ℕ × V)

mutual
  pub data Resolver (V : Type 0) : Type 0 where
    -- `EmptyResolver` and `FunctionResolver`
    empty_resolver : Resolver V
    function_resolver : (ℕ → Result Exception V) → Resolver V
    -- an object with `resolve`, perhaps with `enter_scope`, perhaps with `enter_connection`
    object_resolver : (ℕ → Result Exception V) → Scope V → Connect V → Resolver V
    context_resolver : Resolver V → Values V → Resolver V

  pub data Scope (V : Type 0) : Type 0 where
    no_scope : Scope V
    enter_scope : Resolver V → Scope V

  pub data Connect (V : Type 0) : Type 0 where
    no_connection : Connect V
    enter_connection : (Values V → Resolver V) → Connect V

-- `RpcResolverLike | None`
pub data ResolverLike (V : Type 0) : Type 0 where
  no_resolver : ResolverLike V
  with_resolve : Resolver V → ResolverLike V
  callable : (ℕ → Result Exception V) → ResolverLike V
  neither : ResolverLike V

-- `object | Mapping[type, object] | None`; a bare object stands for its class.
pub data Context (V : Type 0) : Type 0 where
  no_context : Context V
  mapping : Values V → Context V
  object : ℕ → V → Context V

-- The `LookupError` of `EmptyResolver`.
abbrev pub lookup_error : Exception
lookup_error = record { mro = 3 ∷ 1 ∷ 0 ∷ []; text = "No RPC resolver is configured"; kind = plain }

module _ {V : Type 0} where
  unfoldable pub value_of : ℕ → Values V → Option V
  value_of dependency [] = none
  value_of dependency ((key, value) ∷ values) =
      if key == dependency then some value else value_of dependency values

  -- `none` is the `TypeError`.
  unfoldable pub as_resolver : ResolverLike V → Option (Resolver V)
  as_resolver no_resolver = some empty_resolver
  as_resolver (with_resolve resolver) = some resolver
  as_resolver (callable f) = some (function_resolver f)
  as_resolver neither = none

  unfoldable pub context_values : Context V → Values V
  context_values no_context = []
  context_values (mapping values) = values
  context_values (object cls value) = (cls, value) ∷ []

  unfoldable pub resolve : Resolver V → ℕ → Result Exception V
  unfolding value_of
  resolve empty_resolver dependency = err lookup_error
  resolve (function_resolver f) dependency = f dependency
  resolve (object_resolver f scope connect) dependency = f dependency
  resolve (context_resolver inner values) dependency =
      let deeper = resolve inner dependency in
      elim (value_of dependency values) [ some value ↦ ok value | none ↦ deeper ]

  -- `ContextResolver(resolver, values) if values else resolver`
  abbrev pub over : Resolver V → Values V → Resolver V
  over resolver [] = resolver
  over resolver (entry ∷ values) = context_resolver resolver (entry ∷ values)

  unfoldable pub resolver_with_context : ResolverLike V → Context V → Option (Resolver V)
  unfolding as_resolver context_values
  resolver_with_context resolver context = do
    resolved ← as_resolver resolver
    some (over resolved (context_values context))

  -- What `call_scope` yields; `ContextResolver.enter_scope` enters the scope of its own resolver.
  unfoldable pub call_scope : Resolver V → Resolver V
  call_scope empty_resolver = empty_resolver
  call_scope (function_resolver f) = function_resolver f
  call_scope (object_resolver f no_scope connect) = object_resolver f no_scope connect
  call_scope (object_resolver f (enter_scope scoped) connect) = scoped
  call_scope (context_resolver inner values) = context_resolver (call_scope inner) values

  -- The resolver of a connection, before its context is put over it.
  unfoldable pub connected : Resolver V → Values V → Resolver V
  connected (object_resolver f scope (enter_connection enter)) values = enter values
  connected resolver values = resolver

  -- What `connection_scope` yields.
  unfoldable pub connection_scope : Resolver V → Context V → Resolver V
  unfolding connected context_values
  connection_scope resolver context =
      over (connected resolver (context_values context)) (context_values context)
