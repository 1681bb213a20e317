-- ===== src/Router.antt =====
-- internal/app/router: the `route {}` and `rule {}` engines of router.hcl. What the HCL library
-- makes of a `when` expression is a parameter of the model: a function of the values that the
-- gateway exposes to the expression.
pub mod Engine
pub mod Config
pub mod Defaults
pub mod Provider
pub mod Rule
