-- ===== src/Policies.antt =====
-- hlinor_registry/policies.py: typed policies. A rule has a trigger and a handler; the handler reads
-- one signal of the request. `Rule.antt` holds the handlers, `Definition.antt` the authoring checks
-- and `Loading.antt` the loader of the compiled entries.
pub mod Clock
pub mod Rule
pub mod Definition
pub mod Loading
pub mod Handlers
pub mod Evidence
pub mod Loader
pub mod NullTypes
mod Tests
