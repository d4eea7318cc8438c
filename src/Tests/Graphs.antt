-- ===== src/Tests/Graphs.antt =====
-- The theorems on graphs, tried on a process with a gateway and a flow to nowhere.
use proctssor.Prelude.{◌≡◌, List, none, some, err, ok}
use proctssor.Bpmn.Process.{FlowElement}
use proctssor.Bpmn.Graph.Queries.{element_not_found, find_next_nodes}
use proctssor.Bpmn.Graph.Nodes.{last_named}
use proctssor.Bpmn.Graph.Edges.{successors}
use proctssor.Bpmn.Graph.Gateways.{Chosen, find_next_nodes_lem}
use proctssor.Tests.Samples.{order, graph}
use mathlib.Core.Logic.{◌⊎◌}

find_next_nodes_example :
    ((last_named "choice" order.flow_element ≡ none)
      × (find_next_nodes graph "choice" ≡ err (element_not_found "choice")))
    ⊎ ((e : FlowElement) × (next : List FlowElement) × (last_named "choice" order.flow_element
          ≡ some e)
        × (find_next_nodes graph "choice" ≡ ok next)
        × Chosen e next (successors order "choice"))
find_next_nodes_example = find_next_nodes_lem order "choice"
