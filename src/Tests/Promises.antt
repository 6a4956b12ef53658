-- ===== src/Tests/Promises.antt =====
-- The promise on a batch for a search.
use log_grid.Master.Promises.Storing.{aggregate_task_result-Promise}
use log_grid.Master.Results.{aggregate_task_result}
use log_grid.Net.Message.{Message, push}
use log_grid.Net.Bytes.{le}
use log_grid.Protocol.Batch.{lines_message}
use log_grid.Tests.Wire.{two_lines}
use log_grid.Master.Promises.{AggregatePromise}
use log_grid.Tests.Cluster.{all_open, published}

-- A batch for the one search.
abbrev two_found : Message
two_found = push (push (push (lines_message two_lines.lines) (le 4 2)) (le 8 5)) (le 8 0)

aggregate_task_result-Promise_example :
    AggregatePromise all_open two_found 0 published
      (aggregate_task_result all_open two_found 0 published)
aggregate_task_result-Promise_example = aggregate_task_result-Promise all_open two_found 0 published
