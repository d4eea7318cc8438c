-- ===== src/Bpmn.antt =====
-- The BPMN model: engine/internal/core/bpmn (model.go, graph.go, validator.go, and the queries of
-- parser.go).
pub mod Elements
pub mod Process
pub mod Graph
pub mod Validator
