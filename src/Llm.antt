-- ===== src/Llm.antt =====
-- The model layer (src/anglerfish/llm): token budgets, and the client that enforces them.
pub mod Budget
pub mod Client
