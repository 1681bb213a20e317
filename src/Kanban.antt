-- ===== src/Kanban.antt =====
-- internal/app/kanban: the roles of the board, from the names in router.hcl to list ids.
-- `strings.ToLower` is the parameter `to_lower`, since its Unicode tables are not in the repository.
pub mod Config
pub mod Resolve
pub mod Category
pub mod PromptVars
