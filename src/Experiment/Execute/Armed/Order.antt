-- ===== src/Experiment/Execute/Armed/Order.antt =====
-- The preparation of tracking_experiment_node.py precedes every arming.
use robot_core.Floats.{Floats}
use robot_core.Experiment.Ensures.{Ensures}
